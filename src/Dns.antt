-- ===== src/Dns.antt =====
-- lab3/util.c: `myDnsLookup` and `dnslookup`. `getaddrinfo` and `inet_ntop` are parameters.
pub mod Addresses
mod Tests
use model_lib.Prelude.{
  ℕ, ◌-◌, not, Option, none, some, List, [], ◌∷◌, ◌++◌, length, take, ltb, if◌then◌else◌,
}
use model_lib.Prelude.Text.{Text, same}

-- An entry of the list that `getaddrinfo` gives, by the family of its address.
pub data Address : Type 0 where
  inet : List ℕ → Address
  inet6 : List ℕ → Address
  other : Address

-- What a call gives: UTIL_FAILURE, the text that it stores and UTIL_SUCCESS, or a write outside a
-- buffer, which is undefined.
pub data Result : Type 0 where
  failure : Result
  found : Text → Result
  wild : Result

-- `getaddrinfo` fails or gives one entry at least; `inet_ntop` gives the text of an address or NULL.
pub record Network : Type 0 where
  pub getaddrinfo : Text → Option (Address × List Address)
  pub inet_ntop : Address → Option Text

-- The buffers of `myDnsLookup`.
pub record Buffers : Type 0 where
  pub ipv4str : Text
  pub prev4str : Text
  pub ipv6str : Text
  pub prev6str : Text
  pub finalstr : Text

abbrev pub final_room : ℕ
final_room = 4095

-- `strcat` to `finalstr`, which has room for 4095 bytes and their NUL; `none` is an overflow.
unfoldable pub append_final : Buffers → Text → Option Buffers
append_final s text =
    if ltb final_room (length (s.finalstr ++ text))
    then none
    else some (record s { finalstr = s.finalstr ++ text })

-- What `inet_ntop` leaves in its buffer; its result is not looked at.
abbrev pub left_in : Option Text → Text → Text
left_in none old = old
left_in (some text) old = text

module _ (net : Network) where
  -- One entry. A text other than the previous one of its family is appended: behind `sep`, which is
  -- a comma in the loop, and empty for the first entry before the loop.
  unfoldable pub add_address : Text → Address → Buffers → Option Buffers
  add_address sep (inet b) s =
      let text = left_in (net.inet_ntop (inet b)) s.ipv4str in
      if not (same text s.prev4str)
      then append_final (record s { ipv4str = text; prev4str = text }) (sep ++ text)
      else some (record s { ipv4str = text })
  add_address sep (inet6 b) s =
      let text = left_in (net.inet_ntop (inet6 b)) s.ipv6str in
      if not (same text s.prev6str)
      then append_final (record s { ipv6str = text; prev6str = text }) (sep ++ text)
      else some (record s { ipv6str = text })
  add_address sep other s = some s

  -- The loop over the entries.
  unfoldable pub add_addresses : List Address → Buffers → Option Buffers
  add_addresses [] s = some s
  add_addresses (a ∷ rest) s = elim (add_address (44 ∷ []) a s) [
    | none ↦ none
    | some s' ↦ add_addresses rest s'
  ]

  -- `junk4` and `junk6` are what the buffers hold that are not set at first. `strncpy` stores no more
  -- than `max_size` bytes.
  unfoldable pub my_dns_lookup : Text → Text → Text → ℕ → Result
  my_dns_lookup junk4 junk6 hostname max_size = elim (net.getaddrinfo hostname) [
    | none ↦ failure
    | some (head, rest) ↦
        let s : Buffers = record {
          ipv4str = junk4;
          prev4str = [];
          ipv6str = junk6;
          prev6str = [];
          finalstr = [];
        } in
        elim (add_address [] head s) [
          | none ↦ wild
          | some s' ↦ elim (add_addresses (head ∷ rest) s') [
            | none ↦ wild
            | some s'' ↦ found (take max_size s''.finalstr)
          ]
        ]
  ]

  -- "UNHANDELED".
  abbrev unhandled : Text
  unhandled = 85 ∷ 78 ∷ 72 ∷ 65 ∷ 78 ∷ 68 ∷ 69 ∷ 76 ∷ 69 ∷ 68 ∷ []

  -- The text of an entry in `dnslookup`, or the return on an error of `inet_ntop`.
  unfoldable entry_text : Address → Option Text
  entry_text (inet b) = net.inet_ntop (inet b)
  entry_text (inet6 b) = some unhandled
  entry_text other = some unhandled

  -- The entries behind the first: their texts are not used, but each must be there.
  unfoldable other_entries : List Address → Text → Result
  other_entries [] first_ip = found first_ip
  other_entries (a ∷ rest) first_ip = elim (entry_text a) [
    | none ↦ failure
    | some text ↦ other_entries rest first_ip
  ]

  unfoldable dnslookup : Text → ℕ → Result
  dnslookup hostname max_size = elim (net.getaddrinfo hostname) [
    | none ↦ failure
    | some (head, rest) ↦ elim (entry_text head) [
      | none ↦ failure
      | some text ↦ other_entries rest (take (max_size - 1) text)
    ]
  ]
