-- ===== src/FakeDevice/Messages.antt =====
-- What lab2/fake_device.c keeps of requests and texts that bring their NUL.
use model_lib.Prelude.{
  ℕ, ◌+◌, ◌<◌, ◌≡◌, refl, sym, ◌∙◌, ap, append-nil, false, some, List, [], ◌∷◌, ◌++◌, length, drop,
  replicate, arith, append_assoc, length-append, suc,
}
use model_lib.Prelude.Text.{Text, IsText, same, until_nul}
use model_lib.FakeDevice.{
  int_size, disk_size, write_req, Event, request_printed, ack_written, disk_printed, FakeDevice,
  receive, take_data, answer, round, rounds,
}
use model_lib.FakeDevice.Store.{until_nul_end, disk_as, store_lem, disk_text_lem, IsText-append}

-- A text that a client can send in one message.
pub record Sendable (t : Text) : Type 0 where
  pub text : IsText t
  pub fits : length t < int_size
  pub no_request : same t write_req ≡ false

abbrev pub AllSendable : List Text → Type 0
AllSendable [] = Unit {0}
AllSendable (t ∷ ts) = Sendable t × AllSendable ts

-- For each text the request to write, and the text.
abbrev pub messages : List Text → List (List ℕ)
messages [] = []
messages (t ∷ ts) = (write_req ++ (0 ∷ [])) ∷ (t ++ (0 ∷ [])) ∷ messages ts

abbrev pub joined : List Text → Text
joined [] = []
joined (t ∷ ts) = t ++ joined ts

-- What the program does for the texts, behind those that it holds.
abbrev pub events : Text → List Text → List Event
events held [] = []
events held (t ∷ ts) =
    request_printed ∷ ack_written ∷ disk_printed (held ++ t) ∷ events (held ++ t) ts

-- The device waits for a request and holds the text, with `k` zeros behind it.
pub record Holds (d : FakeDevice) (k : ℕ) (held : Text) : Type 0 where
  pub disk : d.disk_buffer ≡ held ++ replicate k 0
  pub end : d.eof ≡ length held
  pub idle : d.disk_stat ≡ 0

-- The device after a request, and after a text behind it.
abbrev asked : FakeDevice → FakeDevice
asked d = record d {
  int_buffer = (write_req ++ (0 ∷ [])) ++ drop 10 d.int_buffer;
  disk_stat = 1;
  log = d.log ++ (request_printed ∷ ack_written ∷ []);
}

abbrev given : FakeDevice → Text → Text → ℕ → FakeDevice
given d held t k = record d {
  int_buffer = (t ++ (0 ∷ [])) ++ drop (length (t ++ (0 ∷ []))) d.int_buffer;
  disk_buffer = (held ++ t) ++ replicate (suc k) 0;
  eof = d.eof + length t;
  disk_stat = 0;
  log = d.log ++ (disk_printed (held ++ t) ∷ []);
}

round_request :
    (d : FakeDevice) → d.disk_stat ≡ 0 → round (write_req ++ (0 ∷ [])) d ≡ some (asked d)
unfolding round receive answer same until_nul
round_request d idle = rw (idle) refl

receive_text :
    (int_buffer : List ℕ) (t : Text)
    → length t < int_size
    → receive int_buffer (t ++ (0 ∷ []))
      ≡ some ((t ++ (0 ∷ [])) ++ drop (length (t ++ (0 ∷ []))) int_buffer)
unfolding receive
receive_text int_buffer t fits = ground (arith, length-append t (0 ∷ []))

module _ (t held rest : List ℕ) (d : FakeDevice) (m k : ℕ) (sendable : Sendable t)
    (text : IsText held) (here : d.int_buffer ≡ t ++ (0 ∷ rest))
    (disk : d.disk_buffer ≡ held ++ replicate m 0) (zeros : m ≡ length t + suc k)
    (end : d.eof ≡ length held) (fits : d.eof + length t < disk_size) where
  take_data_lem :
      take_data d
      ≡ some (record d {
        disk_buffer = (held ++ t) ++ replicate (suc k) 0;
        eof = d.eof + length t;
        disk_stat = 0;
        log = d.log ++ (disk_printed (held ++ t) ∷ []);
      })
  unfolding take_data
  take_data_lem =
      rw
        (
          here,
          store_lem t rest held d.disk_buffer d.eof m (suc k) sendable.text disk zeros end fits,
          disk_text_lem (held ++ t) k (IsText-append held t text sendable.text),
        )
        refl

  answer_data : d.disk_stat ≡ 1 → answer d ≡ take_data d
  unfolding answer
  answer_data asking =
      rw (here, until_nul_end t rest sendable.text, sendable.no_request, asking) refl

round_text :
    (t held : Text) (d : FakeDevice) (m k : ℕ)
    → Sendable t
    → IsText held
    → d.disk_buffer ≡ held ++ replicate m 0
    → m ≡ length t + suc k
    → d.eof ≡ length held
    → d.eof + length t < disk_size
    → d.disk_stat ≡ 1
    → round (t ++ (0 ∷ [])) d ≡ some (given d held t k)
unfolding round
round_text t held d m k sendable text disk zeros end fits asking =
    let rest = drop (length (t ++ (0 ∷ []))) d.int_buffer in
    let d1 = record d { int_buffer = (t ++ (0 ∷ [])) ++ rest } in
    let here = append_assoc t (0 ∷ []) rest in
    rw (receive_text d.int_buffer t sendable.fits) (
      answer_data t held rest d1 m k sendable text here disk zeros end fits asking
      ∙ take_data_lem t held rest d1 m k sendable text here disk zeros end fits)

Holds-as :
    (d : FakeDevice) (k : ℕ) (held held' : Text) → held ≡ held' → Holds d k held → Holds d k held'
Holds-as d k held held' e h = record {
  disk = h.disk ∙ ap (λ l. l ++ replicate k 0) e;
  end = h.end ∙ ap length e;
  idle = h.idle;
}

log_as :
    (log : List Event) (text : Text) (later : List Event)
    → ((log ++ (request_printed ∷ ack_written ∷ [])) ++ (disk_printed text ∷ [])) ++ later
      ≡ log ++ (request_printed ∷ ack_written ∷ disk_printed text ∷ later)
log_as log text later =
    ap (λ l. l ++ later)
      (append_assoc log (request_printed ∷ ack_written ∷ []) (disk_printed text ∷ []))
    ∙ append_assoc log (request_printed ∷ ack_written ∷ disk_printed text ∷ []) later

-- A device that waits for a request holds a text, with zeros behind it. Messages that are each a
-- request and then a sendable text, with their NULs, all end with no store behind an array: the texts
-- are kept in order behind what is held, as long as a zero is left, each request is acknowledged,
-- after each text all that is held is printed, and the device waits for a request again.
pub rounds_keep :
    (ts : List Text) (held : Text) (d : FakeDevice) (m r : ℕ)
    → AllSendable ts
    → IsText held
    → Holds d m held
    → m ≡ length (joined ts) + suc r
    → length held + m ≡ disk_size
    → (d' : FakeDevice) × (rounds (messages ts) d ≡ some d')
      × Holds d' (suc r) (held ++ joined ts)
      × (d'.log ≡ d.log ++ events held ts)
unfolding rounds
rounds_keep [] held d m r all text h zeros size = (
  d,
  refl,
  record {
    disk = h.disk ∙ disk_as held (held ++ []) m (suc r) (sym (append-nil held)) (omega arith);
    end = h.end ∙ ap length (sym (append-nil held));
    idle = h.idle;
  },
  sym (append-nil d.log),
)
rounds_keep (t ∷ ts) held d m r (sendable, all) text h zeros size =
    let k = length (joined ts) + r in
    let d1 = asked d in
    let d2 = given d1 held t k in
    let asks = round_request d h.idle in
    let gives =
      round_text t held d1 m k sendable text h.disk (omega (arith, length-append t (joined ts)))
        h.end (omega (arith, h.end, length-append t (joined ts))) refl in
    let (d', runs, holds, logged) =
      rounds_keep ts (held ++ t) d2 (suc k) r all (IsText-append held t text sendable.text)
        (record { disk = refl; end = omega (arith, h.end, length-append held t); idle = refl })
        (omega arith) (omega (arith, length-append held t, length-append t (joined ts))) in
    (
      d',
      rw (asks, gives) runs,
      Holds-as d' (suc r) ((held ++ t) ++ joined ts) (held ++ (t ++ joined ts))
          (append_assoc held t (joined ts)) holds,
      logged ∙ log_as d.log (held ++ t) (events (held ++ t) ts),
    )
