-- ===== src/FakeDevice/Tests.antt =====
-- Two texts for lab2/fake_device.c: "hi" and then "a".
use model_lib.Prelude.{◌≡◌, refl, some, List, [], ◌∷◌, arith}
use model_lib.Prelude.Text.{Text, same}
use model_lib.FakeDevice.{FakeDevice, started, disk_size, rounds}
use model_lib.FakeDevice.Messages.{Holds, messages, joined, events, rounds_keep}

abbrev texts : List Text
texts = (104 ∷ 105 ∷ []) ∷ (97 ∷ []) ∷ []

rounds_keep_example :
    (d' : FakeDevice) × (rounds (messages texts) started ≡ some d')
    × Holds d' 1021 (joined texts)
    × (d'.log ≡ events [] texts)
unfolding same
rounds_keep_example =
    rounds_keep texts [] started disk_size 1020
      (
        record {
          text = (λ e. absurd (omega arith), (λ e. absurd (omega arith), tt));
          fits = omega arith;
          no_request = refl;
        },
        (
          record { text = (λ e. absurd (omega arith), tt); fits = omega arith; no_request = refl },
          tt,
        ),
      )
      tt (record { disk = refl; end = refl; idle = refl }) (omega arith) refl
