-- ===== src/Uri/RoundTrip.antt =====
-- src/CommonTypes.h, class Uri: printing, and reading back.
use cpp_sparkplug.Prelude.{
  ℕ, suc, ◌+◌, ◌-◌, ◌<◌, ◌^◌, Bytes, drop, length, some, ◌++◌, ◌∷◌, [], ◌≡◌, refl, ap, subst, ◌∙◌,
  sym, arith, length-append, take-append, drop-append, append_assoc,
}
use cpp_sparkplug.Prelude.Int.{ℤ, pos, negsuc}
use cpp_sparkplug.Prelude.Text.{
  Lacks, find, substr, stoi, to_string, find-append, find-append_behind, find-Lacks_behind,
  stoi-to_string,
}
use cpp_sparkplug.Uri.{Uri, init, init_address, print, protocol_identifier, port_separator}

-- A scheme with its "://", and an address with no colon, as in "tcp://localhost".
pub record IsPlain (scheme : Bytes) (u : Uri) : Type 0 where
  pub scheme_plain : Lacks b':' scheme
  pub protocol_lem : u.protocol ≡ scheme ++ protocol_identifier
  pub address_plain : Lacks b':' u.address

drop_past : (a : Bytes) (c : ℕ) (rest : Bytes) → drop (length a + 1) (a ++ (c ∷ rest)) ≡ rest
drop_past [] c rest = refl
drop_past (x ∷ a) c rest =
    let e : suc (length a) + 1 ≡ suc (length a + 1) = omega arith in rw e (drop_past a c rest)

drop_behind : (pre s : Bytes) (n : ℕ) → drop (length pre + n) (pre ++ s) ≡ drop n s
drop_behind [] s n = let e : 0 + n ≡ n = omega arith in rw e
drop_behind (x ∷ pre) s n =
    let e : suc (length pre) + n ≡ suc (length pre + n) = omega arith in rw e (drop_behind pre s n)

port_start_lem :
    (pre a : Bytes) (c : ℕ) (rest : Bytes)
    → drop (length pre + length a + 1) (pre ++ (a ++ (c ∷ rest))) ≡ rest
port_start_lem pre a c rest =
    let e : length pre + length a + 1 ≡ length pre + (length a + 1) = omega arith in
    rw e (drop_behind pre (a ++ (c ∷ rest)) (length a + 1) ∙ drop_past a c rest)

address_lem :
    (pre a : Bytes) (c : ℕ) (rest : Bytes)
    → substr (pre ++ (a ++ (c ∷ rest))) (length pre) (length pre + length a + 1 - length pre - 1)
      ≡ a
address_lem pre a c rest =
    let e : length pre + length a + 1 - length pre - 1 ≡ length a = omega arith in
    rw (e, drop-append pre (a ++ (c ∷ rest))) (take-append a (c ∷ rest))

init_address_port :
    (pre a rest : Bytes) (k : ℤ)
    → Lacks b':' a
    → stoi rest ≡ some k
    → init_address (pre ++ (a ++ (b':' ∷ rest))) pre (length pre)
      ≡ some (record { protocol = pre; address = a; port = k })
unfolding init_address
init_address_port pre a rest k h e = ground (
  arith,
  find-append_behind b':' [] pre a rest h,
  port_start_lem pre a b':' rest,
  address_lem pre a b':' rest,
)

init_address_none :
    (pre a : Bytes)
    → Lacks b':' a
    → init_address (pre ++ a) pre (length pre)
      ≡ some (record { protocol = pre; address = a; port = negsuc 0 })
unfolding init_address
init_address_none pre a h = ground (arith, find-Lacks_behind b':' [] pre a h, drop-append pre a)

-- Behind a scheme with its "://", `init` is the reading of an address from there on.
init-scheme :
    (scheme t : Bytes)
    → Lacks b':' scheme
    → let pre = scheme ++ protocol_identifier in
      init (pre ++ t) ≡ init_address (pre ++ t) pre (length pre)
unfolding init
init-scheme scheme t h =
    let whole : (scheme ++ protocol_identifier) ++ t ≡ scheme ++ (b':' ∷ (b'/' ∷ b'/' ∷ [] ++ t)) =
      append_assoc scheme protocol_identifier t in
    let found : find protocol_identifier ((scheme ++ protocol_identifier) ++ t) 0
        ≡ some (length scheme) =
      ap (λ (u : Bytes). find protocol_identifier u 0) whole
      ∙ find-append b':' (b'/' ∷ b'/' ∷ []) scheme t h in
    let len : length scheme + length protocol_identifier ≡ length (scheme ++ protocol_identifier) =
      sym (length-append scheme protocol_identifier) in
    let cut : substr ((scheme ++ protocol_identifier) ++ t) 0
          (length (scheme ++ protocol_identifier))
        ≡ scheme ++ protocol_identifier =
      take-append (scheme ++ protocol_identifier) t in
    ground (arith, found, len, cut)

-- The record that a plain URI is.
abbrev plain : Bytes → Bytes → ℤ → Uri
plain scheme a k = record { protocol = scheme ++ protocol_identifier; address = a; port = k }

plain_lem :
    (scheme : Bytes) (u : Uri) (k : ℤ)
    → IsPlain scheme u
    → u.port ≡ k
    → plain scheme u.address k ≡ u
plain_lem scheme u k p e =
    λ i. record { protocol = sym (p.protocol_lem) i; address = u.address; port = sym e i }

print-plain :
    (scheme a : Bytes) (n : ℕ)
    → 0 < n
    → print (plain scheme a (pos n))
      ≡ (scheme ++ protocol_identifier) ++ (a ++ (b':' ∷ to_string (pos n)))
unfolding print
print-plain scheme a n h = ground (
  arith,
  append_assoc ((scheme ++ protocol_identifier) ++ a) port_separator (to_string (pos n)),
  append_assoc (scheme ++ protocol_identifier) a (b':' ∷ to_string (pos n)),
)

-- A plain URI with a port that is a positive int is what its text is read as.
pub init-print :
    (scheme : Bytes) (u : Uri) (n : ℕ)
    → IsPlain scheme u
    → u.port ≡ pos n
    → 0 < n
    → n < 2 ^ 31
    → init (print u) ≡ some u
init-print scheme u n p e h lt =
    subst (λ v. init (print v) ≡ some v) (plain_lem scheme u (pos n) p e)
      (ap init (print-plain scheme u.address n h)
        ∙ init-scheme scheme _ p.scheme_plain
        ∙ init_address_port _ u.address _ (pos n) p.address_plain (stoi-to_string n lt))

-- A plain URI without a port, which is -1, is what its text is read as.
init-print_portless :
    (scheme : Bytes) (u : Uri) → IsPlain scheme u → u.port ≡ negsuc 0 → init (print u) ≡ some u
unfolding print
init-print_portless scheme u p e =
    subst (λ v. init (print v) ≡ some v) (plain_lem scheme u (negsuc 0) p e)
      (init-scheme scheme _ p.scheme_plain ∙ init_address_none _ u.address p.address_plain)
