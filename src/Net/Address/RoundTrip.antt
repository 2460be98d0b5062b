-- ===== src/Net/Address/RoundTrip.antt =====
-- An address printed and read back.
use epyx.Base.{
  ℕ, zero, suc, ◌%◌, ◌^◌, ◌<◌, ◌≡◌, ◌≢◌, refl, sym, ap, ◌∙◌, false, [], ◌∷◌, ◌++◌, append_assoc,
  append-nil, subst, none, some, arith, ◌==◌, if◌then◌else◌, All, Bytes,
}
use epyx.Core.Text.{from_unsigned_long}
use epyx.Core.Text.Number.{to_int-from_unsigned_long}
use epyx.Net.Address.{
  IpAddress, SockAddress, parsed, split_at, with_port, simplify_ip, parse_ip, to_port, use_port,
  then_port, parse_ipv4, parse_address, print_ip, print_address, guess_version,
}

abbrev pub Without : ℕ → Bytes → Type 0
Without c = All (λ x. (x == c) ≡ false)

pub split_at-append :
    (c : ℕ) (s rest : Bytes) → Without c s → split_at c (s ++ c ∷ rest) ≡ some (s, rest)
unfolding split_at
split_at-append c [] rest h = ground arith
split_at-append c (x ∷ s) rest h = rw (h.0, split_at-append c s rest h.1)

pub split_at-none : (c : ℕ) (s : Bytes) → Without c s → split_at c s ≡ none
unfolding split_at
split_at-none c [] h = refl
split_at-none c (x ∷ s) h = rw (h.0, split_at-none c s h.1)

-- An IPv4 address as the system writes it.
pub record IsIpv4 (simplify : ℕ → Bytes → Bytes) (a : IpAddress) : Type 0 where
  pub version : a.ip_version ≡ 4
  pub filled : a.ip ≢ []
  pub bracket : Without b'[' a.ip
  pub colon : Without b':' a.ip
  pub simple : simplify 4 a.ip ≡ a.ip

module _ (simplify : ℕ → Bytes → Bytes) where
  parse_ip4 :
      (ip : Bytes)
      → ip ≢ []
      → Without b'[' ip
      → parse_ip simplify ip 4 ≡ parsed (record { ip = simplify 4 ip; ip_version = 4 })
  unfolding parse_ip simplify_ip guess_version
  parse_ip4 [] ne b = absurd (ne refl)
  parse_ip4 (c ∷ s) ne b = rw b.0

  parse_kept :
      (ip : Bytes)
      → ip ≢ []
      → Without b'[' ip
      → simplify 4 ip ≡ ip
      → parse_ip simplify ip 4 ≡ parsed (record { ip = ip; ip_version = 4 })
  parse_kept ip ne b e = parse_ip4 ip ne b ∙ ap (λ x. parsed (record { ip = x; ip_version = 4 })) e

  use_port_digits :
      (n : ℕ) (ip : IpAddress)
      → n < 2 ^ 16
      → use_port simplify (b':' ∷ from_unsigned_long n) ip ≡ parsed (with_port ip n)
  unfolding use_port to_port
  use_port_digits n ip h =
      let m : n % 2 ^ 16 ≡ n = omega (arith, h) in
      rw (to_int-from_unsigned_long n (omega (arith, h)), use_port, m)

  parse_plain :
      (ip rest : Bytes)
      → ip ≢ []
      → Without b'[' ip
      → parse_address simplify (ip ++ rest) ≡ parse_ipv4 simplify (ip ++ rest)
  unfolding parse_address
  parse_plain [] rest ne b = absurd (ne refl)
  parse_plain (c ∷ s) rest ne b = rw (b.0, parse_address)

  parse_bare :
      (ip : Bytes)
      → ip ≢ []
      → Without b'[' ip
      → Without b':' ip
      → parse_address simplify ip ≡ then_port simplify [] (parse_ip simplify ip 4)
  unfolding parse_ipv4
  parse_bare ip ne b k =
      ap (parse_address simplify) (sym (append-nil ip))
      ∙ parse_plain ip [] ne b
      ∙ ap (parse_ipv4 simplify) (append-nil ip)
      ∙ rw (split_at-none b':' ip k, parse_ipv4)

  parse_with_port :
      (ip port : Bytes)
      → ip ≢ []
      → Without b'[' ip
      → Without b':' ip
      → parse_address simplify (ip ++ b':' ∷ port)
        ≡ then_port simplify (b':' ∷ port) (parse_ip simplify ip 4)
  unfolding parse_ipv4
  parse_with_port ip port ne b k =
      parse_plain ip (b':' ∷ port) ne b ∙ rw (split_at-append b':' ip port k, parse_ipv4)

  print_suc :
      (a : IpAddress) (n : ℕ)
      → print_address (with_port a (suc n)) ≡ print_ip a ++ b':' ∷ from_unsigned_long (suc n)
  unfolding print_address
  print_suc a n = let e : (suc n == 0) ≡ false = ground arith in rw e

  abbrev ipv4 : Bytes → ℕ → SockAddress
  ipv4 ip port = with_port (record { ip = ip; ip_version = 4 }) port

  ipv4_round :
      (ip : Bytes) (port : ℕ)
      → ip ≢ []
      → Without b'[' ip
      → Without b':' ip
      → simplify 4 ip ≡ ip
      → port < 2 ^ 16
      → parse_address simplify (print_address (ipv4 ip port)) ≡ parsed (ipv4 ip port)
  unfolding print_address then_port use_port
  ipv4_round [] port ne b k e p = absurd (ne refl)
  ipv4_round (c ∷ s) zero ne b k e p =
      parse_bare (c ∷ s) ne b k ∙ ap (then_port simplify []) (parse_kept (c ∷ s) ne b e)
  ipv4_round (c ∷ s) (suc n) ne b k e p =
      ap (parse_address simplify) (print_suc (record { ip = c ∷ s; ip_version = 4 }) n)
      ∙ parse_with_port (c ∷ s) (from_unsigned_long (suc n)) ne b k
      ∙ ap (then_port simplify (b':' ∷ from_unsigned_long (suc n))) (parse_kept (c ∷ s) ne b e)
      ∙ use_port_digits (suc n) (record { ip = c ∷ s; ip_version = 4 }) p

  -- The text of an IPv4 address as the system writes it, with a port below 2^16, reads back as the
  -- address and the port, also where the port is 0 and not written.
  pub parse_address-print_address :
      (a : SockAddress)
      → IsIpv4 simplify a.ip
      → a.port < 2 ^ 16
      → parse_address simplify (print_address a) ≡ parsed a
  parse_address-print_address a h p =
      subst (λ x. parse_address simplify (print_address x) ≡ parsed x)
        (ap (λ v. with_port (record { ip = a.ip.ip; ip_version = v }) a.port) (sym h.version))
        (ipv4_round a.ip.ip a.port h.filled h.bracket h.colon h.simple p)

  -- The text of an IPv6 address is written without brackets, and so, whatever the system makes of
  -- the part before its first colon, if this is not empty and has no bracket, it is read as the
  -- IPv4 address that this part gives, and a port, or an exception, from the rest.
  pub parse_address_ipv6 :
      (group rest : Bytes) (port : ℕ)
      → group ≢ []
      → Without b'[' group
      → Without b':' group
      → parse_address simplify
          (print_address (with_port (record { ip = group ++ b':' ∷ rest; ip_version = 6 }) port))
        ≡ use_port simplify
            (b':' ∷ (if port == 0 then rest else rest ++ b':' ∷ from_unsigned_long port))
            (record { ip = simplify 4 group; ip_version = 4 })
  unfolding print_address then_port
  parse_address_ipv6 [] rest port ne b k = absurd (ne refl)
  parse_address_ipv6 (c ∷ s) rest zero ne b k =
      parse_with_port (c ∷ s) rest ne b k
      ∙ ap (then_port simplify (b':' ∷ rest)) (parse_ip4 (c ∷ s) ne b)
  parse_address_ipv6 (c ∷ s) rest (suc n) ne b k =
      let more = rest ++ b':' ∷ from_unsigned_long (suc n) in
      let z : (suc n == 0) ≡ false = ground arith in
      ap (parse_address simplify)
        (print_suc (record { ip = (c ∷ s) ++ b':' ∷ rest; ip_version = 6 }) n)
      ∙ ap (parse_address simplify)
          (append_assoc (c ∷ s) (b':' ∷ rest) (b':' ∷ from_unsigned_long (suc n)))
      ∙ parse_with_port (c ∷ s) more ne b k
      ∙ ap (then_port simplify (b':' ∷ more)) (parse_ip4 (c ∷ s) ne b)
      ∙ ap
          (λ t.
            use_port simplify (b':' ∷ (if t then rest else more))
              (record { ip = simplify 4 (c ∷ s); ip_version = 4 }))
          (sym z)
