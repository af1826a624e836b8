-- ===== src/Http1/Content.antt =====
-- `decode_content` of services/proxy/decrypt0rx_proxy/http1.py: captured bodies are decompressed where that
-- works, and kept as they are otherwise. The decompressors are the interface `Inflate`.
use decrypt0r_x.Prelude.{◌||◌, [], ◌∷◌, Option, none, some, if◌then◌else◌}
use decrypt0r_x.Text.{Text, codes, text_eq, lower, strip}

-- each returns `none` where it raises, and where it is not installed
pub record Inflate : Type 0 where
  -- `zlib.decompress(body, 16 + zlib.MAX_WBITS)`
  pub gunzip : Text → Option Text
  -- `zlib.decompress(body)`; its exception is `zlib.error`
  pub inflate : Text → Option Text
  -- `zlib.decompress(body, -zlib.MAX_WBITS)`
  pub inflate_raw : Text → Option Text
  -- `brotli.decompress(body)`
  pub unbrotli : Text → Option Text
  -- `zstandard.ZstdDecompressor().decompress(body)`
  pub unzstd : Text → Option Text

-- `except Exception: return body`
abbrev or_body : Option Text → Text → Text
or_body none body = body
or_body (some plain) body = plain

-- the second way to inflate, where the first has failed
abbrev or_else : Option Text → Option Text → Option Text
or_else none second = second
or_else (some plain) second = some plain

module _ (lib : Inflate) where
  open lib use {gunzip, inflate, inflate_raw, unbrotli, unzstd}

  abbrev decompressed : Text → Text → Option Text
  decompressed encoding body =
      if text_eq encoding (codes "gzip") || text_eq encoding (codes "x-gzip")
      then gunzip body
      else if text_eq encoding (codes "deflate")
      then or_else (inflate body) (inflate_raw body)
      else if text_eq encoding (codes "br")
      then unbrotli body
      else if text_eq encoding (codes "zstd")
      then unzstd body
      else none

  -- `decode_content(body, content_encoding)`
  unfoldable pub decode_content : Text → Option Text → Text
  decode_content [] encoding = []
  decode_content (c ∷ body) none = c ∷ body
  decode_content (c ∷ body) (some []) = c ∷ body
  decode_content (c ∷ body) (some (e ∷ encoding)) =
      or_body (decompressed (lower (strip (e ∷ encoding))) (c ∷ body)) (c ∷ body)
