-- ===== src/Wasm/Buffers/Relink.antt =====
-- The links of a chain whose last full buffer gets a new one behind it.
use mathlib.Core.Path.{subst}
use ngx_wasm_module.Common.{
  ℕ, ◌≡◌, refl, sym, ap, ◌∙◌, true, false, Option, none, some, List, [], ◌∷◌, ◌++◌, arith, ◌==◌,
}
use ngx_wasm_module.Wasm.Buffers.{Links, set_next, put_tail}
use ngx_wasm_module.Wasm.Buffers.Link.{Frees}
use ngx_wasm_module.Wasm.Buffers.Segments.{
  not_same, frame, has, Distinct, Chain, at_end, at_link, has-append,
}
use ngx_wasm_module.Wasm.Buffers.Recycle.{is_at}
use ngx_wasm_module.Wasm.Buffers.Tail.{last_or}

last_of : ℕ → List ℕ → ℕ
last_of x [] = x
last_of x (y ∷ ys) = last_of y ys

last_or-last_of : (x : ℕ) (ys : List ℕ) → last_or (some x) ys ≡ some (last_of x ys)
unfolding last_of
last_or-last_of x [] = refl
last_or-last_of x (y ∷ ys) = last_or-last_of y ys

has-last_of : (x : ℕ) (ys : List ℕ) → has (last_of x ys) (x ∷ ys) ≡ true
unfolding last_of
has-last_of x [] = ground arith
has-last_of x (y ∷ ys) = ground (arith, has-last_of y ys)

module _ (f g : ℕ → Option ℕ) (p : ℕ) (es : List ℕ) (new_last : g p ≡ none) where
  relink :
      (x : ℕ) (fs : List ℕ) {cl : Option ℕ}
      → Chain f cl (x ∷ fs ++ es)
      → Distinct (x ∷ fs)
      → g (last_of x fs) ≡ some p
      → ((a : ℕ) → has a (x ∷ fs) ≡ true → (a == last_of x fs) ≡ false → g a ≡ f a)
      → Chain g cl (x ∷ fs ++ p ∷ [])
  unfolding last_of
  relink x [] (at_link c) d at same = at_link (rw at (at_link (rw new_last at_end)))
  relink x (y ∷ fs) (at_link c) d at same =
      let other : (x == last_of y fs) ≡ false = ground (arith, has-last_of y fs, d.0) in
      at_link
        (rw (same x (ground arith) other) (relink y fs c d.1 at λ a i ne. same a (ground arith) ne))

pub Distinct-prefix : (fs es : List ℕ) → Distinct (fs ++ es) → Distinct fs
Distinct-prefix [] es d = tt
Distinct-prefix (x ∷ fs) es d = (ground (arith, d.0, has-append x fs es), Distinct-prefix fs es d.1)

pub Distinct-apart :
    (z : ℕ) (fs es : List ℕ) → Distinct (fs ++ es) → has z es ≡ true → has z fs ≡ false
Distinct-apart z [] es d i = refl
Distinct-apart z (x ∷ fs) es d i =
    ground (arith, d.0, has-append x fs es, Distinct-apart z fs es d.1 i)

pub Distinct-last : (p : ℕ) (fs : List ℕ) → Distinct fs → has p fs ≡ false → Distinct (fs ++ p ∷ [])
Distinct-last p [] d out = (refl, tt)
Distinct-last p (x ∷ fs) d out =
    (ground (arith, d.0, has-append x fs (p ∷ [])), Distinct-last p fs d.1 (ground arith))

pub put_tail-buf :
    (ll : Option ℕ) (p : ℕ) (head : Option ℕ) (s : Links) → (put_tail ll p head s).1.buf ≡ s.buf
put_tail-buf none p head s = refl
put_tail-buf (some l) p head s = refl

pub put_tail-top :
    (ll : Option ℕ) (p : ℕ) (head : Option ℕ) (s : Links) → (put_tail ll p head s).1.top ≡ s.top
put_tail-top none p head s = refl
put_tail-top (some l) p head s = refl

-- The free links are not touched.
pub put_tail-Frees :
    (fs frees : List ℕ) (p : ℕ) (head : Option ℕ) (s : Links)
    → Frees frees s
    → ((a : ℕ) → has a fs ≡ true → has a frees ≡ false)
    → Frees frees (put_tail (last_or none fs) p head s).1
put_tail-Frees [] frees p head s free apart = free
put_tail-Frees (x ∷ fs) frees p head s free apart =
    let l = last_of x fs in
    let out = apart l (has-last_of x fs) in
    subst (λ ll. Frees frees (put_tail ll p head s).1) (sym (last_or-last_of x fs))
      (record {
        chain = frame free.chain λ a i. rw (not_same l a frees out i) refl;
        distinct = free.distinct;
        below = free.below;
      })

-- The chain of the full buffers with the link `p` behind the last of them.
pub put_tail-Chain :
    (before : ℕ → Option ℕ) (fs es : List ℕ) (p : ℕ) (head : Option ℕ) (s : Links)
    → Chain before head (fs ++ es)
    → Distinct fs
    → has p fs ≡ false
    → s.next p ≡ none
    → ((a : ℕ) → has a fs ≡ true → is_at (last_or none fs) a ≡ false → s.next a ≡ before a)
    → Chain
        (put_tail (last_or none fs) p head s).1.next
        (put_tail (last_or none fs) p head s).0
        (fs ++ p ∷ [])
put_tail-Chain before [] es p head s c d out last same = at_link (rw last at_end)
put_tail-Chain before (x ∷ fs) es p head s c d out last same =
    let l = last_of x fs in
    let not_l : (p == l) ≡ false = ground (arith, has-last_of x fs, out) in
    let at_l : (l == l) ≡ true = ground arith in
    subst (λ ll. Chain (put_tail ll p head s).1.next (put_tail ll p head s).0 (x ∷ fs ++ p ∷ []))
      (sym (last_or-last_of x fs))
      (relink before (set_next l (some p) s).next p es (rw not_l last) x fs c d (rw at_l refl)
        λ a i ne. rw ne (same a i (ap (λ ll. is_at ll a) (last_or-last_of x fs) ∙ ne)))
