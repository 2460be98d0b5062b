-- ===== src/Net/Uri/RoundTrip.antt =====
-- A URI printed and read back.
use epyx.Base.{
  ℕ, ◌^◌, ◌<◌, ◌≡◌, ◌≢◌, refl, sym, ap, ◌∙◌, false, [], ◌∷◌, ◌++◌, append_assoc, append-nil, none,
  some, ◌==◌, Bytes, codes,
}
use epyx.Core.Text.{to_lower}
use epyx.Net.Address.{SockAddress, parsed, print_address}
use epyx.Net.Address.RoundTrip.{
  Without, IsIpv4, split_at-append, split_at-none, parse_address-print_address,
}
use epyx.Net.Uri.{
  Uri, make_uri, starts_location, split_scheme, with_address, read_location, parse_uri, scheme_text,
  print_uri,
}

-- The path is empty or begins with a slash.
abbrev pub IsPath : Bytes → Type 0
IsPath [] = Unit
IsPath (c ∷ s) = c ≡ b'/'

no_colon : (c : ℕ) (t : Bytes) → (c == b':') ≡ false → starts_location (c ∷ t) ≡ none
no_colon c [] h = refl
no_colon c (a ∷ []) h = refl
no_colon c (a ∷ b ∷ t) h = rw h

split_scheme-append :
    (s rest : Bytes) → Without b':' s → split_scheme (s ++ (codes "://" ++ rest)) ≡ some (s, rest)
unfolding split_scheme
split_scheme-append [] rest h = refl
split_scheme-append (c ∷ s) rest h =
    rw (no_colon c (s ++ (codes "://" ++ rest)) h.0, split_scheme-append s rest h.1, split_scheme)

module _ (simplify : ℕ → Bytes → Bytes) (scheme : Bytes) (a : SockAddress)
    (ip : IsIpv4 simplify a.ip) (port : a.port < 2 ^ 16)
    (slash : Without b'/' (print_address a)) where
  read_back :
      (path : Bytes)
      → IsPath path
      → read_location simplify scheme (print_address a ++ path) ≡ parsed (make_uri scheme a path)
  unfolding read_location
  read_back [] h =
      ap (read_location simplify scheme) (append-nil (print_address a))
      ∙ rw (split_at-none b'/' (print_address a) slash, read_location)
          (ap (with_address simplify scheme []) (parse_address-print_address simplify a ip port))
  read_back (c ∷ s) h =
      ap (λ x. read_location simplify scheme (print_address a ++ x ∷ s)) h
      ∙ rw (split_at-append b'/' (print_address a) s slash, read_location)
          (ap (with_address simplify scheme (b'/' ∷ s))
            (parse_address-print_address simplify a ip port))
      ∙ ap (λ x. parsed (make_uri scheme a (x ∷ s))) (sym h)

-- A URI with a scheme in lower case and without a colon, an IPv4 address as the system writes it
-- with a port below 2^16, whose text has no slash, and a path that is empty or begins with a slash
-- reads back from its text.
pub parse_uri-print_uri :
    (simplify : ℕ → Bytes → Bytes) (u : Uri)
    → u.scheme ≢ []
    → Without b':' u.scheme
    → to_lower u.scheme ≡ u.scheme
    → IsIpv4 simplify u.addr.ip
    → u.addr.port < 2 ^ 16
    → Without b'/' (print_address u.addr)
    → IsPath u.path
    → parse_uri simplify (print_uri u) ≡ parsed u
unfolding parse_uri print_uri make_uri
parse_uri-print_uri simplify u ne colon lower ip port slash path =
    ap (λ t. parse_uri simplify (t ++ (print_address u.addr ++ u.path))) (text u.scheme ne)
    ∙ ap (parse_uri simplify) (append_assoc u.scheme (codes "://") (print_address u.addr ++ u.path))
    ∙ rw (split_scheme-append u.scheme (print_address u.addr ++ u.path) colon, parse_uri)
        (read_back simplify u.scheme u.addr ip port slash u.path path)
    ∙ ap (λ s. parsed (record u { scheme = s })) lower
  where
    text : (s : Bytes) → s ≢ [] → scheme_text s ≡ s ++ codes "://"
    text [] k = absurd (k refl)
    text (c ∷ s) k = refl
