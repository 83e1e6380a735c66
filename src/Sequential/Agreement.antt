-- ===== src/Sequential/Agreement.antt =====
-- lab3/lookup.c and lab3/multi-lookup.c on the same files.
use model_lib.Prelude.{
  ℕ, ◌<◌, ◌≡◌, ◌≢◌, refl, sym, ◌∙◌, ap, true, false, Option, none, some, List, [], ◌∷◌, ◌++◌, arith,
  length, length-append, ltb, map, get_elem?,
}
use model_lib.Prelude.Text.{Text}
use model_lib.Dns.{Result, failure, found, wild}
use model_lib.Lookup.{Line}
use model_lib.Lookup.Family.{sum_below, sum_below-suc, sum_below-all_zero}
use model_lib.Lookup.Requester.{names}
use model_lib.Lookup.System.{System, Reach}
use model_lib.Lookup.Joined.{waited}
use model_lib.Lookup.Complete.{complete_output}
use model_lib.Sequential.{line_of, name_lines, file_lines, but_last, lookup_main, written}

-- The address in the line of a look-up.
abbrev pub address_of : Result → Text
address_of failure = []
address_of (found ip) = ip
address_of wild = []

abbrev pub line : (Text → Result) → Text → Line
line ip_of h = record { hostname = h; ipstring = address_of (ip_of h) }

-- What the threads read of the `i`-th input file.
abbrev pub file_at : (Text → Option (List Text)) → List Text → ℕ → Option (List Text)
file_at open_input inputs i = elim (get_elem? inputs i) [
  | none ↦ none
  | some file ↦ open_input file
]

-- The names of the files, in their order.
unfoldable pub all_names : (Text → Option (List Text)) → List Text → List Text
all_names open_input [] = []
all_names open_input (file ∷ rest) = names (open_input file) ++ all_names open_input rest

-- Every file can be opened.
abbrev pub AllOpen : (Text → Option (List Text)) → List Text → Type 0
AllOpen open_input [] = Unit {0}
AllOpen open_input (file ∷ rest) = (open_input file ≢ none) × AllOpen open_input rest

all_names-count :
    (open_input : Text → Option (List Text)) (inputs : List Text)
    → sum_below (length inputs) (λ i. length (names (file_at open_input inputs i)))
      ≡ length (all_names open_input inputs)
unfolding all_names
all_names-count open_input [] = sum_below-all_zero 0 _ (λ i lt. refl)
all_names-count open_input (file ∷ rest) = omega (
  arith,
  sum_below-suc (length rest) (λ i. length (names (file_at open_input (file ∷ rest) i))),
  all_names-count open_input rest,
  length-append (names (open_input file)) (all_names open_input rest),
)

but_last-append :
    (inputs : List Text) (output : Text)
    → (ip_of : Text → Result) → (open_input : Text → Option (List Text))
    → but_last ip_of open_input (inputs ++ (output ∷ [])) ≡ inputs
unfolding but_last
but_last-append [] output ip_of open_input = refl
but_last-append (a ∷ []) output ip_of open_input = refl
but_last-append (a ∷ b ∷ rest) output ip_of open_input =
    ap (λ l. a ∷ l) (but_last-append (b ∷ rest) output ip_of open_input)

map-append {ℓ κ} :
    {A : Type ℓ} {B : Type κ} (f : A → B) (xs ys : List A) → map f (xs ++ ys) ≡ map f xs ++ map f ys
map-append f [] ys = refl
map-append f (x ∷ xs) ys = ap (λ l. f x ∷ l) (map-append f xs ys)

length-map {ℓ κ} :
    {A : Type ℓ} {B : Type κ} (f : A → B) (xs : List A) → length (map f xs) ≡ length xs
length-map f [] = refl
length-map f (x ∷ xs) = omega (arith, length-map f xs)

module _ (ip_of : Text → Result) (defined : (t : Text) → ip_of t ≢ wild)
    (open_input : Text → Option (List Text)) where
  line_of_lem : (hostname : Text) → line_of ip_of open_input hostname ≡ some (line ip_of hostname)
  unfolding line_of
  line_of_lem hostname = ground (arith, defined hostname)

  name_lines_lem :
      (hosts : List Text) → name_lines ip_of open_input hosts ≡ some (map (line ip_of) hosts)
  unfolding name_lines
  name_lines_lem [] = refl
  name_lines_lem (h ∷ rest) = rw (name_lines, line_of_lem h, name_lines_lem rest) refl

  file_lines_lem :
      (inputs : List Text)
      → AllOpen open_input inputs
      → file_lines ip_of open_input inputs ≡ some (map (line ip_of) (all_names open_input inputs))
  unfolding file_lines all_names
  file_lines_lem [] opens = refl
  file_lines_lem (file ∷ rest) (opens, later) =
      elim (open_input file)
          as (λ x.
            x ≡ open_input file
            → file_lines ip_of open_input (file ∷ rest)
              ≡ some (map (line ip_of) (all_names open_input (file ∷ rest)))) [
                | none ↦ λ e. absurd (opens (sym e))
                | some hosts ↦ λ e.
                    rw (file_lines, sym e, name_lines_lem hosts, file_lines_lem rest later)
                      (ap some (sym (map-append (line ip_of) hosts (all_names open_input rest))))
              ]
        refl

  -- On input files that all open, with an output file that opens and look-ups that stay within their
  -- buffers, `main` of lookup.c writes one line for each name, in the order of the files and of the
  -- names in them, with the empty address where the look-up fails; and when `main` of multi-lookup.c
  -- has seen its requesters end and `hostnameLeft` reach 0 on the same files, its output has as many
  -- lines.
  pub lookup_agrees :
      (m : ℕ) (inputs : List Text) (output : Text)
      → 0 < length inputs
      → AllOpen open_input inputs
      → {s : System}
      → Reach (λ h. address_of (ip_of h)) (length inputs) m (file_at open_input inputs) s
      → waited s.main_pc ≡ true
      → (lookup_main ip_of open_input true (inputs ++ (output ∷ []))
          ≡ written (map (line ip_of) (all_names open_input inputs)))
        × (length s.shared.output ≡ length (map (line ip_of) (all_names open_input inputs)))
  unfolding lookup_main
  lookup_agrees m inputs output some_input opens {s} r w = (
    rw
        (
          lookup_main,
          enough,
          but_last-append inputs output ip_of open_input,
          file_lines_lem inputs opens,
        )
        refl,
    (complete_output (λ h. address_of (ip_of h)) (length inputs) m (file_at open_input inputs) r
          w).0
        ∙ all_names-count open_input inputs
        ∙ sym (length-map (line ip_of) (all_names open_input inputs)),
  )
    where
      enough : ltb (length (inputs ++ (output ∷ []))) 2 ≡ false
      enough = ground (arith, length-append inputs (output ∷ []))
