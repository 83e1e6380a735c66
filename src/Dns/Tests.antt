-- ===== src/Dns/Tests.antt =====
-- lab3/util.c on a host with two addresses: one is given twice, by the head and the first of the rest.
use model_lib.Prelude.{◌≡◌, refl, some, List, [], ◌∷◌, ◌++◌, arith}
use model_lib.Prelude.Text.{Text}
use model_lib.Dns.{Address, inet, inet6, other, Network, my_dns_lookup}
use model_lib.Dns.Addresses.{news, if_fits, seen, my_dns_lookup_lem}

abbrev text : Address → Text
text (inet b) = 49 ∷ b
text (inet6 b) = 58 ∷ b
text other = []

abbrev rest : List Address
rest = inet (46 ∷ []) ∷ inet6 (49 ∷ []) ∷ []

abbrev net : Network
net = record {
  getaddrinfo = λ hostname. some (inet (46 ∷ []), rest);
  inet_ntop = λ a. some (text a);
}

my_dns_lookup_lem_example :
    my_dns_lookup net [] [] (97 ∷ []) 4096
    ≡ seen 4096 (if_fits ((49 ∷ 46 ∷ []) ++ news text rest (49 ∷ 46 ∷ []) []))
my_dns_lookup_lem_example =
    my_dns_lookup_lem net text (λ a. refl) [] [] (97 ∷ []) 4096 (inet (46 ∷ [])) rest refl
      (omega arith) (λ h. cc) (omega arith)
