-- ===== src/Examples/Codes.antt =====
-- What crosses the border to a module.
use ocm_controller.Prelude.{◌≡◌, none, [], ◌∷◌, ◌<◌, ◌^◌, arith}
use ocm_controller.Prelude.Outcome.{ok}
use ocm_controller.Wasm.Memory.{pack, guest_answer, memory}
use ocm_controller.Wasm.Border.{guest_answer-pack, guest_answer-forgets}
use ocm_controller.Wasm.Errors.{check}

guest_answer-pack_example :
    (pack 1024 5 < 2 ^ 64)
    × (check (pack 1024 5 ∷ []) ≡ ok none)
    × (guest_answer (pack 1024 5) ≡ ok (memory 1024 5))
guest_answer-pack_example = guest_answer-pack 1024 5 (omega arith) (omega arith) (omega arith)

guest_answer-forgets_example : guest_answer 6 ≡ ok (memory 0 6)
guest_answer-forgets_example = guest_answer-forgets 6 (omega arith) (omega arith)
