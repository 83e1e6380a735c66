-- ===== src/Dns/Addresses.antt =====
-- What the functions of lab3/util.c make of the entries of a host.
use model_lib.Prelude.{
  ℕ, ◌≤◌, ◌≡◌, ◌≢◌, refl, ◌∙◌, ap, false, Option, none, some, List, [], ◌∷◌, ◌++◌, arith, length,
  length-append, append_assoc, append-nil, take, ltb, if◌then◌else◌, Bool-cases, inl, inr,
}
use model_lib.Prelude.Text.{Text, same, same_self}
use model_lib.Dns.{
  Address, inet, inet6, other, Result, found, wild, Network, Buffers, append_final, add_address,
  add_addresses, my_dns_lookup, final_room,
}

-- The texts that differ from the one before them in their family, each behind a comma. The two texts
-- are the last ones of the two families.
unfoldable pub news : (Address → Text) → List Address → Text → Text → Text
news text [] last4 last6 = []
news text (inet b ∷ rest) last4 last6 =
    let same_rest = news text rest last4 last6 in
    let new_rest = news text rest (text (inet b)) last6 in
    if same (text (inet b)) last4 then same_rest else 44 ∷ (text (inet b) ++ new_rest)
news text (inet6 b ∷ rest) last4 last6 =
    let same_rest = news text rest last4 last6 in
    let new_rest = news text rest last4 (text (inet6 b)) in
    if same (text (inet6 b)) last6 then same_rest else 44 ∷ (text (inet6 b) ++ new_rest)
news text (other ∷ rest) last4 last6 = news text rest last4 last6

-- What the buffer holds at the end of a run, if it fits.
abbrev pub if_fits : Text → Option Text
if_fits t = if ltb final_room (length t) then none else some t

abbrev final_of : Option Buffers → Option Text
final_of none = none
final_of (some s) = some s.finalstr

below : (n : ℕ) → n ≤ final_room → ltb final_room n ≡ false
below n h = ground arith

module _ (net : Network) (text : Address → Text)
    (converts : (a : Address) → net.inet_ntop a ≡ some (text a)) where
  -- What holds of the entries behind one.
  abbrev Then : List Address → Type 0
  Then rest =
      (s : Buffers)
      → length s.finalstr ≤ final_room
      → final_of (add_addresses net rest s)
        ≡ if_fits (s.finalstr ++ news text rest s.prev4str s.prev6str)

  -- An entry whose text is appended, in buffers `s` that hold it as the last of its family.
  append_final_lem :
      (rest : List Address)
      → Then rest
      → (s : Buffers) (t : Text)
      → final_of (elim (append_final s t) as (λ x. Option Buffers) [
        | none ↦ none
        | some s' ↦ add_addresses net rest s'
      ])
        ≡ if_fits (s.finalstr ++ (t ++ news text rest s.prev4str s.prev6str))
  unfolding append_final
  append_final_lem rest later s t = elim (Bool-cases (ltb final_room (length (s.finalstr ++ t)))) [
    | inl over ↦
        rw (append_final, over)
          (ground (
            arith,
            over,
            append_assoc s.finalstr t (news text rest s.prev4str s.prev6str),
            length-append (s.finalstr ++ t) (news text rest s.prev4str s.prev6str),
          ))
    | inr fits ↦
        rw (append_final, fits)
          (later (record s { finalstr = s.finalstr ++ t }) (ground (arith, fits))
            ∙ ap if_fits (append_assoc s.finalstr t (news text rest s.prev4str s.prev6str)))
  ]

  add_addresses_lem : (rest : List Address) → Then rest
  unfolding add_addresses news add_address
  add_addresses_lem [] s fits = rw append-nil (ground arith)
  add_addresses_lem (inet b ∷ rest) s fits = elim (Bool-cases (same (text (inet b)) s.prev4str)) [
    | inl old ↦
        rw (add_addresses, add_address, news, converts (inet b), old)
          (add_addresses_lem rest (record s { ipv4str = text (inet b) }) fits)
    | inr fresh ↦
        rw (add_addresses, add_address, news, converts (inet b), fresh)
          (append_final_lem rest (add_addresses_lem rest)
            (record s { ipv4str = text (inet b); prev4str = text (inet b) }) (44 ∷ text (inet b)))
  ]
  add_addresses_lem (inet6 b ∷ rest) s fits = elim (Bool-cases (same (text (inet6 b)) s.prev6str)) [
    | inl old ↦
        rw (add_addresses, add_address, news, converts (inet6 b), old)
          (add_addresses_lem rest (record s { ipv6str = text (inet6 b) }) fits)
    | inr fresh ↦
        rw (add_addresses, add_address, news, converts (inet6 b), fresh)
          (append_final_lem rest (add_addresses_lem rest)
            (record s { ipv6str = text (inet6 b); prev6str = text (inet6 b) })
            (44 ∷ text (inet6 b)))
  ]
  add_addresses_lem (other ∷ rest) s fits = add_addresses_lem rest s fits

-- The buffer at the end, as the caller sees it.
abbrev pub seen : ℕ → Option Text → Result
seen max_size none = wild
seen max_size (some t) = found (take max_size t)

seen-final_of :
    (max_size : ℕ) (x : Option Buffers)
    → ◌≡◌ {A = Result}
        (elim x [ none ↦ wild | some s ↦ found (take max_size s.finalstr) ])
        (seen max_size (final_of x))
seen-final_of max_size none = refl
seen-final_of max_size (some s) = refl

abbrev pub IsIp : Address → Type 0
IsIp (inet b) = Unit {0}
IsIp (inet6 b) = Unit {0}
IsIp other = ⊥

-- The last texts of the two families behind the first entry.
abbrev pub last4 : (Address → Text) → Address → Text
last4 text (inet b) = text (inet b)
last4 text _ = []

abbrev pub last6 : (Address → Text) → Address → Text
last6 text (inet6 b) = text (inet6 b)
last6 text _ = []

not_empty : (t : Text) → t ≢ [] → same t [] ≡ false
unfolding same
not_empty [] h = absurd (h refl)
not_empty (b ∷ bs) h = refl

module _ (net : Network) (text : Address → Text)
    (converts : (a : Address) → net.inet_ntop a ≡ some (text a)) where
  -- Where `inet_ntop` converts every address, the first entry is an IPv4 or IPv6 address, and its text
  -- is not empty and fits: `myDnsLookup` stores the first text and, behind commas, each further text
  -- that differs from the one before it in its family, cut to `maxSize` bytes; and it overflows
  -- `finalstr` just where this text has more than 4095 bytes.
  pub my_dns_lookup_lem :
      (junk4 junk6 hostname : Text) (max_size : ℕ) (head : Address) (rest : List Address)
      → net.getaddrinfo hostname ≡ some (head, rest)
      → IsIp head
      → text head ≢ []
      → length (text head) ≤ final_room
      → my_dns_lookup net junk4 junk6 hostname max_size
        ≡ seen max_size (if_fits (text head ++ news text rest (last4 text head) (last6 text head)))
  unfolding my_dns_lookup add_address append_final news
  my_dns_lookup_lem junk4 junk6 hostname max_size (inet b) rest e ip some_text fits =
      rw
        (
          my_dns_lookup,
          e,
          add_address,
          converts (inet b),
          not_empty (text (inet b)) some_text,
          append_final,
          below _ fits,
        )
        (seen-final_of max_size _
          ∙ ap (seen max_size) (
              add_addresses_lem net text converts (inet b ∷ rest) _ fits
              ∙ rw (news, same_self (text (inet b))) refl))
  my_dns_lookup_lem junk4 junk6 hostname max_size (inet6 b) rest e ip some_text fits =
      rw
        (
          my_dns_lookup,
          e,
          add_address,
          converts (inet6 b),
          not_empty (text (inet6 b)) some_text,
          append_final,
          below _ fits,
        )
        (seen-final_of max_size _
          ∙ ap (seen max_size) (
              add_addresses_lem net text converts (inet6 b ∷ rest) _ fits
              ∙ rw (news, same_self (text (inet6 b))) refl))
  my_dns_lookup_lem junk4 junk6 hostname max_size other rest e ip some_text fits = absurd ip
