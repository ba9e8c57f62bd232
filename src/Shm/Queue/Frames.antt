-- ===== src/Shm/Queue/Frames.antt =====
-- ngx_wa_shm_queue.c: the messages that the bytes of the ring stand for.
use ngx_wasm_module.Common.{
  ℕ, ◌^◌, ◌<◌, ◌≡◌, sym, ap, ◌∙◌, Bool, some, List, [], ◌∷◌, ◌++◌, append-nil, append_assoc, arith,
  length, ltb,
}
use ngx_wasm_module.Shm.Queue.{Queue, queue_occupancy, assert, u32_bytes, u32_value}
use ngx_wasm_module.Shm.Queue.Ring.{IsValid}
use ngx_wasm_module.Shm.Queue.Bytes.{contents, Holds-contents, Holds-length}

-- A message is stored behind its length.
abbrev pub frame : List ℕ → List ℕ
frame m = u32_bytes (length m) ++ m

abbrev pub frames : List (List ℕ) → List ℕ
frames [] = []
frames (m ∷ ms) = frame m ++ frames ms

-- A message whose length fits its header. A build with NGX_DEBUG also wants it not empty.
abbrev pub IsMessage : Bool → List ℕ → Type 0
IsMessage debug m = (length m < 2 ^ 32) × (assert debug (ltb 0 (length m)) ≡ some tt)

abbrev pub AllMessages : Bool → List (List ℕ) → Type 0
AllMessages debug [] = Unit {0}
AllMessages debug (m ∷ ms) = IsMessage debug m × AllMessages debug ms

-- The ring holds the messages `ms`, oldest first.
pub record Represents (debug : Bool) (q : Queue) (ms : List (List ℕ)) : Type 0 where
  pub valid : IsValid q
  pub bytes : contents q ≡ frames ms
  pub messages : AllMessages debug ms

pub frames-append : (ms : List (List ℕ)) (m : List ℕ) → frames (ms ++ m ∷ []) ≡ frames ms ++ frame m
frames-append [] m = append-nil (frame m)
frames-append (x ∷ ms) m =
    ap (◌++◌ (frame x)) (frames-append ms m) ∙ sym (append_assoc (frame x) (frames ms) (frame m))

pub AllMessages-append :
    (debug : Bool) (ms : List (List ℕ)) (m : List ℕ)
    → AllMessages debug ms
    → IsMessage debug m
    → AllMessages debug (ms ++ m ∷ [])
AllMessages-append debug [] m s h = (h, tt)
AllMessages-append debug (x ∷ ms) m s h = (s.0, AllMessages-append debug ms m s.1 h)

pub Represents-occupancy :
    (debug : Bool) (q : Queue) (ms : List (List ℕ))
    → Represents debug q ms
    → queue_occupancy q ≡ length (frames ms)
Represents-occupancy debug q ms r =
    sym (Holds-length q _ (contents q) (Holds-contents q r.valid)) ∙ ap length r.bytes

pub u32_value-bytes : (n : ℕ) → n < 2 ^ 32 → u32_value (u32_bytes n) ≡ n
u32_value-bytes n h = omega arith
