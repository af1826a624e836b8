-- ===== src/Pki/Names.antt =====
-- `_san_for`: the hosts that the names of a leaf certificate cover.
use decrypt0r_x.Prelude.{
  ◌≡◌, refl, ap, sym, ◌∙◌, subst, inl, inr, Bool, true, false, not, ◌&&◌, ◌||◌, List, [], ◌∷◌, ◌++◌,
  if◌then◌else◌, length, ltb, Bool-cases, arith,
}
use decrypt0r_x.Text.{Text, codes, text_eq, starts_with, split_on, first_part}
use decrypt0r_x.Text.Split.{
  split_cases, split_on-absent, split_on-append, first_part-absent, first_part-append,
  join-split_on,
}
use decrypt0r_x.Http1.Heads.Lines.{absent}
use decrypt0r_x.Pki.Library.{X509, GeneralName, ip_name, dns_name}
use decrypt0r_x.Pki.{tail_of, dns_names, san_for}

abbrev pub labels_of : Text → List Text
labels_of t = split_on b'.' t

abbrev pub texts_eq : List Text → List Text → Bool
texts_eq [] [] = true
texts_eq [] (u ∷ us) = false
texts_eq (t ∷ ts) [] = false
texts_eq (t ∷ ts) (u ∷ us) = text_eq t u && texts_eq ts us

abbrev pub star : Text
star = codes "*"

-- A client's match of a pattern, by RFC 6125 and up to case: a first label that is a star stands for any one label.
abbrev pub labels_match : List Text → Text → Text → Bool
labels_match [] pattern_text host = false
labels_match (label ∷ labels) pattern_text host =
    if text_eq label star
    then texts_eq labels (tail_of (labels_of host))
    else text_eq pattern_text host

abbrev pub dns_match : Text → Text → Bool
dns_match pattern_text host = labels_match (labels_of pattern_text) pattern_text host

abbrev pub covers : List GeneralName → Text → Bool
covers [] host = false
covers (ip_name a ∷ names) host = text_eq a host || covers names host
covers (dns_name p ∷ names) host = dns_match p host || covers names host

-- another host below the same parent, where the name has three labels at least
abbrev pub is_sibling : Text → Text → Bool
is_sibling hostname host =
    ltb 2 (length (labels_of hostname))
    && texts_eq (tail_of (labels_of hostname)) (tail_of (labels_of host))

or_false : (b : Bool) → (b || false) ≡ b
or_false true = refl
or_false false = refl

no_wildcard :
    (a r : Text)
    → absent b'.' a ≡ true
    → text_eq a star ≡ false
    → starts_with (codes "*.") (a ++ b'.' ∷ r) ≡ false
no_wildcard [] r free h = refl
no_wildcard (x ∷ []) r free h = ground arith
no_wildcard (x ∷ y ∷ a) r free h = ground arith

dns_names-whole :
    (hostname host : Text)
    → absent b'.' hostname ≡ true
    → text_eq hostname star ≡ false
    → covers (dns_names hostname) host ≡ (text_eq hostname host || is_sibling hostname host)
dns_names-whole hostname host free solid =
    rw (split_on-absent b'.' hostname free, split_on-absent b'.' hostname free, solid)

dns_names-divided :
    (a r host : Text)
    → absent b'.' a ≡ true
    → text_eq a star ≡ false
    → covers (dns_names (a ++ b'.' ∷ r)) host
      ≡ (text_eq (a ++ b'.' ∷ r) host || is_sibling (a ++ b'.' ∷ r) host)
dns_names-divided a r host free solid =
    let labels : labels_of (a ++ b'.' ∷ r) ≡ a ∷ labels_of r = split_on-append b'.' a r free in
    let plain : dns_match (a ++ b'.' ∷ r) host ≡ text_eq (a ++ b'.' ∷ r) host =
      rw (labels, solid) in
    elim (Bool-cases (ltb 2 (length (a ∷ labels_of r)))) [
      | inl many ↦ rw (
        labels,
        no_wildcard a r free solid,
        many,
        join-split_on b'.' r,
        plain,
        or_false (texts_eq (labels_of r) (tail_of (labels_of host))),
      )
      | inr few ↦ rw (labels, few, plain)
    ]

module _ (lib : X509) where
  open lib use {is_address}

  -- The names that `_san_for` gives for a host whose first label is no star cover that host, and, unless it is an address,
  -- those that differ from it in the first label alone if it has three labels at least; and no other.
  pub san_for-covers :
      (hostname host : Text)
      → text_eq (first_part b'.' hostname) star ≡ false
      → covers (san_for lib hostname) host
        ≡ (text_eq hostname host || (not (is_address hostname) && is_sibling hostname host))
  unfolding san_for
  san_for-covers hostname host solid = elim (Bool-cases (is_address hostname)) [
    | inl address ↦ rw address
    | inr name ↦ rw name (elim (split_cases b'.' hostname) [
      | inl free ↦
          dns_names-whole hostname host free
            (subst (λ t. text_eq t star ≡ false) (first_part-absent b'.' hostname free) solid)
      | inr (a, r, free, e) ↦
          subst (λ t. covers (dns_names t) host ≡ (text_eq t host || is_sibling t host)) (sym e)
            (dns_names-divided a r host free (
              subst (λ t. text_eq t star ≡ false)
                (ap (first_part b'.') e ∙ first_part-append b'.' a r free) solid))
    ])
  ]
