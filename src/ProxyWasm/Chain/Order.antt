-- ===== src/ProxyWasm/Chain/Order.antt =====
-- ngx_proxy_wasm_resume: in which order the filters are called, and where the chain stands after.
use ngx_wasm_module.Common.{
  ℕ, zero, suc, ◌+◌, ◌<◌, ◌≤◌, ◌≡◌, ◌⊎◌, refl, Bool, true, false, ◌||◌, not, Option, some, List, [],
  ◌∷◌, ◌++◌, arith, length, modify, get_elem?,
}
use ngx_wasm_module.ProxyWasm.Chain.{
  Step, Result, Exec, Ctx, Err, step_number, is_body, is_done_step,
}

abbrev pub range : ℕ → ℕ → List ℕ
range i zero = []
range i (suc n) = i ∷ range (i + 1) n

-- The filter at which the chain stands has an error.
abbrev pub HasFailed : Ctx → Type 0
HasFailed ctx =
    (e : Exec) × (err : Err) × (get_elem? ctx.pwexecs ctx.exec_index ≡ some e)
    × (e.ecode ≡ some err)

-- Where the chain stands after the filters before `k` were called.
pub data Place (step : Step) (k : ℕ) (ctx ctx' : Ctx) : Type 0 where
  waits :
      ctx'.exec_index ≡ k
      → ctx'.last_completed_step ≡ ctx.last_completed_step
      → Place step k ctx ctx'
  completes :
      ctx'.exec_index ≡ 0
      → ctx'.last_completed_step ≡ step_number step
      → k ≡ length ctx.pwexecs
      → Place step k ctx ctx'
  fails :
      ctx'.exec_index ≤ k
      → k ≤ ctx'.exec_index + 1
      → ctx'.exec_index < length ctx.pwexecs
      → HasFailed ctx'
      → ctx'.last_completed_step ≡ ctx.last_completed_step
      → Place step k ctx ctx'

-- `m` filters were called, in order, from the filter `i` on.
pub record Moved (step : Step) (i m : ℕ) (ctx ctx' : Ctx) : Type 0 where
  pub size : length ctx'.pwexecs ≡ length ctx.pwexecs
  pub phase : ctx'.phase ≡ ctx.phase
  pub calls : ctx'.called ≡ ctx.called ++ range i m
  pub bound : i + m ≤ length ctx.pwexecs
  pub place : Place step (i + m) ctx ctx'

-- What a round leaves: the loop goes on past a filter that was called, or it stops.
pub data RoundEnd (step : Step) (i : ℕ) (ctx : Ctx) : Option (Bool × Result × Ctx) → Type 0 where
  goes_on :
      (rc : Result) (ctx' : Ctx)
      → Moved step i 1 ctx ctx'
      → (ctx'.exec_index ≡ i + 1) ⊎ (i + 1 ≡ length ctx.pwexecs)
      → RoundEnd step i ctx (some (true, rc, ctx'))
  stops :
      (rc : Result) (ctx' : Ctx) (m : ℕ)
      → Moved step i m ctx ctx'
      → RoundEnd step i ctx (some (false, rc, ctx'))

-- What a chain's filters promise in this file: a step which is neither RESP_BODY nor DONE.
abbrev pub is_plain : Step → Bool
is_plain step = not (is_body step || is_done_step step)

pub get_elem?-modify :
    {A : Type 0} (f : A → A) (i : ℕ) (xs : List A)
    → i < length xs
    → (x : A) × (get_elem? (modify f i xs) i ≡ some (f x))
get_elem?-modify f i [] h = absurd (omega arith)
get_elem?-modify f zero (x ∷ xs) h = (x, refl)
get_elem?-modify f (suc i) (x ∷ xs) h = get_elem?-modify f i xs (omega arith)
