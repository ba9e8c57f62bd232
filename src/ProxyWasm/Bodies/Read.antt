-- ===== src/ProxyWasm/Bodies/Read.antt =====
-- ngx_proxy_wasm_hfuncs_get_buffer of ngx_proxy_wasm_host.c: a guest reads the request's body.
use mathlib.Core.Bool.{and-false}
use mathlib.Core.Option.{none-ne-some}
use ngx_wasm_module.Common.{
  ℕ, zero, suc, ◌+◌, ◌%◌, ◌≤◌, ◌<◌, ◌≡◌, refl, sym, ap, ◌∙◌, inl, inr, Bool, true, false, not,
  Option, none, some, List, [], ◌∷◌, ◌++◌, u64_mod, arith, length, length-append, append_assoc,
  append-nil, take, ltb, le→ltb, if◌then◌else◌, Bool-cases, ◌==◌, ◌&&◌, ◌>>=◌,
}
use ngx_wasm_module.Wasm.Buffers.{Buf, Links, is_end}
use ngx_wasm_module.Wasm.Buffers.Segments.{Chain, at_end, at_link, chain_bytes}
use ngx_wasm_module.Wasm.Buffers.Clear.{take_all}
use ngx_wasm_module.Wasm.Buffers.Len.{LastEnds, end_none, chain_len-chain_bytes}
use ngx_wasm_module.ProxyWasm.Chain.{Step}
use ngx_wasm_module.Http.Bodies.{Bodies}
use ngx_wasm_module.Http.Bodies.Request.{bufs_of, ReqBody}
use ngx_wasm_module.ProxyWasm.Bodies.{
  request_body, size_of_i32, Sources, Source, from_chain, not_found, from_memory, bufs_or_not_found,
  chain_or, gets_request, buffer_source, copied_chunk, copy_chain, copied, copy_links, copy_bufs,
  read_source, host_get_buffer,
}

starts :
    {next : ℕ → Option ℕ} {cl : Option ℕ} {q : ℕ} {ps : List ℕ}
    → Chain next cl (q ∷ ps)
    → cl ≡ some q
starts (at_link c) = refl

module _ (in_memory : ℕ → Bool) (max_len : ℕ) (s : Links)
    (fits : (k : ℕ) → k ≤ max_len → in_memory k ≡ true) where
  -- A chunk below the limit is copied whole.
  copy_one :
      (n p : ℕ) (out : List ℕ)
      → length out + length (s.buf p).bytes ≤ max_len
      → copy_chain (suc n) in_memory max_len (length out) out s (some p) ≡ (
          if is_end (s.buf p)
          then some (true, out ++ (s.buf p).bytes)
          else copy_chain n in_memory max_len
              (length (out ++ (s.buf p).bytes))
              (out ++ (s.buf p).bytes)
              s
              (s.next p))
  unfolding copy_chain
  copy_one n p out le =
      let xs = (s.buf p).bytes in
      let whole : copied_chunk max_len (length out) xs ≡ (xs, length out + length xs) =
        rw (le→ltb max_len (length out + length xs) le) refl in
      ap
        (λ (r : List ℕ × ℕ).
          if not (length r.0 == 0) && not (in_memory (length out + length r.0))
          then some (false, out)
          else if is_end (s.buf p)
          then some (true, out ++ r.0)
          else copy_chain n in_memory max_len r.1 (out ++ r.0) s (s.next p))
        whole
      ∙ rw (fits (length out + length xs) le, and-false)
          (ap
            (λ k.
              if is_end (s.buf p)
              then some (true, out ++ xs)
              else copy_chain n in_memory max_len k (out ++ xs) s (s.next p))
            (sym (length-append out xs)))

  copy_none :
      (n len : ℕ) (out : List ℕ) → copy_chain n in_memory max_len len out s none ≡ some (true, out)
  unfolding copy_chain
  copy_none zero len out = refl
  copy_none (suc n) len out = refl

  copy_chain-chain_bytes :
      (n : ℕ) (ps : List ℕ) (out : List ℕ) {cl : Option ℕ}
      → Chain s.next cl ps
      → LastEnds s.buf ps
      → length ps ≤ n
      → length out + length (chain_bytes s.buf ps) ≤ max_len
      → copy_chain n in_memory max_len (length out) out s cl
        ≡ some (true, out ++ chain_bytes s.buf ps)
  unfolding chain_bytes
  copy_chain-chain_bytes n [] out at_end l fuel le =
      copy_none n (length out) out ∙ ap (λ xs. some (true, xs)) (sym (append-nil out))
  copy_chain-chain_bytes zero (p ∷ ps) out c l fuel le = absurd (omega arith)
  copy_chain-chain_bytes (suc n) (p ∷ []) out (at_link c) l fuel le =
      let xs = (s.buf p).bytes in
      let room : length out + length xs ≤ max_len = omega (arith, le, ap length (append-nil xs)) in
      let all : out ++ (xs ++ []) ≡ out ++ xs = ap (◌++◌ out) (append-nil xs) in
      copy_one n p out room ∙ elim (Bool-cases (is_end (s.buf p))) [
        | inl e ↦ rw e (ap (λ ys. some (true, ys)) (sym all))
        | inr ne ↦ rw ne (
            ap (copy_chain n in_memory max_len (length (out ++ xs)) (out ++ xs) s) (end_none c)
            ∙ copy_none n (length (out ++ xs)) (out ++ xs)
            ∙ ap (λ ys. some (true, ys)) (sym all))
      ]
  copy_chain-chain_bytes (suc n) (p ∷ q ∷ ps) out (at_link c) l fuel le =
      let xs = (s.buf p).bytes in
      let rest = chain_bytes s.buf (q ∷ ps) in
      let total = length-append xs rest in
      copy_one n p out (omega (arith, le, total))
      ∙ ap
          (λ b.
            if b
            then some (true, out ++ xs)
            else copy_chain n in_memory max_len (length (out ++ xs)) (out ++ xs) s (s.next p))
          l.0
      ∙ copy_chain-chain_bytes n (q ∷ ps) (out ++ xs) c l.1 (omega (arith, fuel))
          (omega (arith, le, total, length-append out xs))
      ∙ ap (λ ys. some (true, ys)) (append_assoc out xs rest)

  -- However the body is laid out, its bytes are copied.
  copy_bufs-chain_bytes :
      (n : ℕ) (ps : List ℕ) {cl : Option ℕ}
      → Chain s.next cl ps
      → LastEnds s.buf ps
      → length ps ≤ n
      → length (chain_bytes s.buf ps) ≤ max_len
      → 0 < length (chain_bytes s.buf ps)
      → copy_bufs n in_memory max_len (length (chain_bytes s.buf ps)) s cl
        ≡ some (copied (length (chain_bytes s.buf ps)) (true, chain_bytes s.buf ps))
  unfolding chain_bytes
  copy_bufs-chain_bytes n [] at_end l fuel le some_bytes = absurd (omega arith)
  copy_bufs-chain_bytes n (p ∷ []) (at_link c) l fuel le some_bytes =
      let xs = (s.buf p).bytes in
      let size = length (xs ++ []) in
      let all : take size xs ≡ xs ++ [] =
        take_all size xs (omega (arith, ap length (append-nil xs))) ∙ sym (append-nil xs) in
      ap (copy_links n in_memory max_len size s p) (end_none c)
      ∙ rw (fits size le) (ap (λ ys. some (copied size (true, ys))) all)
  copy_bufs-chain_bytes n (p ∷ q ∷ ps) (at_link c) l fuel le some_bytes =
      let size = length (chain_bytes s.buf (p ∷ q ∷ ps)) in
      ap (copy_links n in_memory max_len size s p) (starts c)
      ∙ ap (λ r. r >>= λ all. some (copied size all))
          (copy_chain-chain_bytes n (p ∷ q ∷ ps) [] (at_link c) l fuel (omega (arith, le)))

  read_chain :
      (n offset : ℕ) (guest_alloc : ℕ → Bool) (ps : List ℕ) {cl : Option ℕ}
      → Chain s.next cl ps
      → LastEnds s.buf ps
      → length ps ≤ n
      → length (chain_bytes s.buf ps) ≤ max_len
      → 0 < length (chain_bytes s.buf ps)
      → offset + length (chain_bytes s.buf ps) < u64_mod
      → guest_alloc (length (chain_bytes s.buf ps)) ≡ true
      → read_source n guest_alloc in_memory offset max_len s (from_chain cl)
        ≡ some (copied (length (chain_bytes s.buf ps)) (true, chain_bytes s.buf ps))
  read_chain n offset guest_alloc ps {cl} c l fuel le some_bytes no_wrap gives =
      let len = length (chain_bytes s.buf ps) in
      let least : ltb max_len len ≡ false = le→ltb max_len len le in
      let some_len : (len == 0) ≡ false = ground (arith, some_bytes) in
      let sum : ((offset + len) % u64_mod) ≡ offset + len = omega (arith, no_wrap) in
      let ahead : ltb (offset + len) offset ≡ false = le→ltb (offset + len) offset (omega arith) in
      rw (chain_len-chain_bytes s n ps c l fuel, least, sum, ahead, some_len, gives)
        (copy_bufs-chain_bytes n ps c l fuel le some_bytes)

links_some :
    {next : ℕ → Option ℕ} {cl : Option ℕ} (buf : ℕ → Buf) (ps : List ℕ)
    → Chain next cl ps
    → 0 < length (chain_bytes buf ps)
    → (p : ℕ) × (cl ≡ some p)
unfolding chain_bytes
links_some buf [] c some_bytes = absurd (omega arith)
links_some buf (p ∷ ps) c some_bytes = (p, starts c)

found :
    (p : ℕ) (rb : Option (Option ℕ))
    → bufs_of rb ≡ some p
    → bufs_or_not_found rb ≡ from_chain (some p)
found p none e = absurd (none-ne-some p e)
found p (some bufs) e = ap (chain_or not_found) e

-- In a step that may get the request's body, a guest that asks for at least the length of a body
-- in memory that has bytes, and has room for it, gets its length and all its bytes from the
-- first one on, whatever offset it gives, as long as that does not wrap around.
pub host_get_buffer-ReqBody :
    (n size : ℕ) (guest_alloc in_memory : ℕ → Bool) (step : Step) (i32_offset i32_max : ℕ)
    (o : Sources) (bytes : List ℕ) (s : Bodies)
    → gets_request step ≡ true
    → o.body_in_file ≡ false
    → ReqBody size bytes s
    → size ≤ n
    → 0 < length bytes
    → length bytes ≤ size_of_i32 i32_max
    → size_of_i32 i32_offset + length bytes < u64_mod
    → guest_alloc (length bytes) ≡ true
    → ((k : ℕ) → k ≤ size_of_i32 i32_max → in_memory k ≡ true)
    → host_get_buffer n guest_alloc in_memory step request_body i32_offset i32_max o s
      ≡ some (copied (length bytes) (true, bytes))
unfolding host_get_buffer buffer_source
host_get_buffer-ReqBody n size guest_alloc in_memory step i32_offset i32_max o bytes s may mem body
      fuel some_bytes enough no_wrap gives fits =
    let max_len = size_of_i32 i32_max in
    let len = ap length body.content in
    let (p, at) =
      links_some s.links.buf body.links body.well.chain (omega (arith, some_bytes, len)) in
    let source : Source = from_chain (some p) in
    rw (may) (
      ap
        (λ q.
          read_source n guest_alloc in_memory (size_of_i32 i32_offset) max_len s.links
            (from_memory o.body_in_file q))
        (found p s.req_body at)
      ∙ ap
          (λ f.
            read_source n guest_alloc in_memory (size_of_i32 i32_offset) max_len s.links
              (from_memory f source))
          mem
      ∙ ap
          (λ cl.
            read_source n guest_alloc in_memory (size_of_i32 i32_offset) max_len s.links
              (from_chain cl))
          (sym at)
      ∙ read_chain in_memory max_len s.links fits n (size_of_i32 i32_offset) guest_alloc body.links
          body.well.chain body.ends (omega (arith, body.bound)) (omega (arith, enough, len))
          (omega (arith, some_bytes, len)) (omega (arith, no_wrap, len))
          (ap guest_alloc len ∙ gives)
      ∙ ap (λ xs. some (copied (length xs) (true, xs))) body.content)
