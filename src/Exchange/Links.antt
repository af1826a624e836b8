-- ===== src/Exchange/Links.antt =====
-- What an exchange takes: the interface `Library` to urlsplit and to the texts of exceptions, and the connections.
use decrypt0r_x.Prelude.{Bool, false, List, [], ◌∷◌, Option}
use decrypt0r_x.Text.{Text}
use decrypt0r_x.Result.{Error}
use decrypt0r_x.Http1.Stream.{Reader, Writer}
use decrypt0r_x.Http1.Content.{Inflate}

-- the parts of a split URL that the program reads
pub record Url : Type 0 where
  pub netloc : Text
  pub path : Text
  pub query : Text

pub record Library : Type 0 where
  -- `urlsplit(text)`; `none` is a `ValueError`
  pub urlsplit : Text → Option Url
  pub inflate : Inflate
  -- `str(exc)`
  pub describe : Error → Text

-- the connections of a client and of an origin, and which of the later timed waits expire
pub record Link : Type 0 where
  pub client : Reader
  pub client_out : Option Writer
  pub origin : Reader
  pub origin_out : Option Writer
  pub waits : List Bool

-- whether the next timed wait expires
abbrev pub expires : List Bool → Bool
expires [] = false
expires (b ∷ waits) = b

abbrev pub later_waits : List Bool → List Bool
later_waits [] = []
later_waits (b ∷ waits) = waits
