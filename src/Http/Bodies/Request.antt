-- ===== src/Http/Bodies/Request.antt =====
-- A request's body as a list of bytes: ngx_http_wasm_set_req_body and
-- ngx_http_wasm_prepend_req_body of ngx_http_wasm_util.c.
use mathlib.Core.Path.{subst}
use ngx_wasm_module.Common.{
  ℕ, ◌+◌, ◌≤◌, ◌<◌, ◌≡◌, refl, sym, ap, ◌∙◌, Bool, true, false, Option, none, some, List, [], ◌∷◌,
  ◌++◌, Rc, arith, length, length-append, take, ◌>>=◌,
}
use ngx_wasm_module.Wasm.Buffers.{chain_ok, Links, chain_prepend, chain_append}
use ngx_wasm_module.Wasm.Buffers.Segments.{chain_bytes}
use ngx_wasm_module.Wasm.Buffers.Well.{WellChain}
use ngx_wasm_module.Wasm.Buffers.Len.{
  LastEnds, LastEnds-last, LastEnds-first, chain_len-chain_bytes,
}
use ngx_wasm_module.Wasm.Buffers.Append.{chain_append-Appended}
use ngx_wasm_module.Wasm.Buffers.Prepend.{chain_prepend-Prepended}
use ngx_wasm_module.Http.Bodies.{
  Bodies, get_request_body, req_written, set_req_bufs, set_req_body, prepend_req_bufs,
  prepend_req_body,
}

-- The chain of a request's body.
abbrev pub bufs_of : Option (Option ℕ) → Option ℕ
bufs_of none = none
bufs_of (some bufs) = bufs

-- The request's body is a well-formed chain of at most `size` buffers, which holds the bytes.
pub record ReqBody (size : ℕ) (bytes : List ℕ) (s : Bodies) : Type 0 where
  pub links : List ℕ
  pub frees : List ℕ
  pub well : WellChain (bufs_of s.req_body) links frees s.links
  pub content : chain_bytes s.links.buf links ≡ bytes
  pub ends : LastEnds s.links.buf links
  pub bound : length links ≤ size

-- A write that succeeds: the bytes, one buffer more at most, and the length of the content.
pub record Wrote (size : ℕ) (bytes : List ℕ) (s : Bodies) (r : Option (Rc × Bodies)) : Type 0 where
  pub after : Bodies
  pub returns : r ≡ some (Rc.ok, after)
  pub body : ReqBody (size + 1) bytes after
  pub len : after.req_content_length ≡ length bytes
  pub same_entered : after.entered_header_filter ≡ s.entered_header_filter

get_request_body_ok : (o : Option (Option ℕ)) → get_request_body true o ≡ some (bufs_of o)
get_request_body_ok none = refl
get_request_body_ok (some bufs) = refl

-- What follows a write to a chain.
req_written-Wrote :
    (n size : ℕ) (bytes : List ℕ) (head : Option ℕ) (links : Links) (s : Bodies) {ps frees : List ℕ}
    → WellChain head ps frees links
    → chain_bytes links.buf ps ≡ bytes
    → LastEnds links.buf ps
    → length ps ≤ size + 1
    → size < n
    → Wrote size bytes s (req_written n (chain_ok, head, links) s)
req_written-Wrote n size bytes head links s {ps} {frees} w content ends bound fuel =
    let len = chain_len-chain_bytes links n ps w.chain ends (omega arith) in
    let after = record s {
      links = links;
      req_body = some head;
      req_content_length = length (chain_bytes links.buf ps);
    } in
    record {
      after = after;
      returns = rw len refl;
      body = record {
        links = ps;
        frees = frees;
        well = w;
        content = content;
        ends = ends;
        bound = bound;
      };
      len = ap length content;
      same_entered = refl;
    }

module _ (n size tag : ℕ) (alloc : ℕ → Bool) (old : List ℕ) (s : Bodies)
    (gives : (i : ℕ) → alloc i ≡ true) (before : s.entered_header_filter ≡ false)
    (body : ReqBody size old s) (fuel : size < n) where
  got_body : get_request_body (alloc 0) s.req_body ≡ some (bufs_of s.req_body)
  got_body = ap (λ g. get_request_body g s.req_body) (gives 0) ∙ get_request_body_ok s.req_body

  set_steps :
      (bytes : List ℕ) (at max : ℕ)
      → set_req_body n alloc tag bytes at max s ≡ (
          chain_append n true (take max bytes) at tag (bufs_of s.req_body) s.links >>= λ q.
          req_written n q s)
  unfolding set_req_body
  set_steps bytes at max =
      ap
        (λ e.
          set_req_bufs n (alloc 1) tag (take max bytes) at s e
            (get_request_body (alloc 0) s.req_body))
        before
      ∙ ap (set_req_bufs n (alloc 1) tag (take max bytes) at s false) got_body
      ∙ ap
          (λ g. chain_append n g (take max bytes) at tag (bufs_of s.req_body) s.links >>= λ q.
            req_written n q s)
          (gives 1)

  prepend_steps :
      (bytes : List ℕ)
      → prepend_req_body n alloc tag bytes s
        ≡ req_written n (chain_prepend true bytes tag (bufs_of s.req_body) s.links) s
  unfolding prepend_req_body
  prepend_steps bytes =
      ap (λ e. prepend_req_bufs n (alloc 1) tag bytes s e (get_request_body (alloc 0) s.req_body))
        before
      ∙ ap (prepend_req_bufs n (alloc 1) tag bytes s false) got_body
      ∙ ap (λ g. req_written n (chain_prepend g bytes tag (bufs_of s.req_body) s.links) s) (gives 1)

  -- Before the header filter, and while the pool gives memory, a write at an offset keeps the
  -- bytes before it, and puts the first `max` bytes of the data behind them.
  pub set_req_body-Wrote :
      (bytes : List ℕ) (at max : ℕ)
      → Wrote size (take at old ++ take max bytes) s (set_req_body n alloc tag bytes at max s)
  set_req_body-Wrote bytes at max =
      let bufs = bufs_of s.req_body in
      let a =
        chain_append-Appended at tag (take max bytes) s.links bufs body.links body.frees n body.well
          (omega (arith, body.bound)) in
      let w =
        req_written-Wrote n size (take at old ++ take max bytes) a.head a.links s a.well
          (a.content.bytes ∙ ap (λ xs. take at xs ++ take max bytes) body.content)
          (LastEnds-last a.links.buf a.kept a.written a.content.end_last)
          (omega (arith, a.shorter, body.bound, length-append a.kept (a.written ∷ []))) fuel in
      subst (Wrote size (take at old ++ take max bytes) s)
        (sym (set_steps bytes at max ∙ ap (λ r. r >>= λ q. req_written n q s) a.returns)) w

  -- The same for a prepend of some bytes, which come before those of the body.
  pub prepend_req_body-Wrote :
      (x : ℕ) (xs : List ℕ) → Wrote size (x ∷ xs ++ old) s (prepend_req_body n alloc tag (x ∷ xs) s)
  prepend_req_body-Wrote x xs =
      let bufs = bufs_of s.req_body in
      let a = chain_prepend-Prepended tag x xs s.links bufs body.links body.frees body.well in
      let w =
        req_written-Wrote n size (x ∷ xs ++ old) (some a.first) a.links s a.well
          (a.bytes ∙ ap (◌++◌ (x ∷ xs)) body.content)
          (LastEnds-first s.links.buf a.links.buf a.first body.links a.no_end a.same_buf body.ends)
          (omega (arith, body.bound)) fuel in
      subst (Wrote size (x ∷ xs ++ old) s)
        (sym (prepend_steps (x ∷ xs) ∙ ap (λ r. req_written n r s) a.returns)) w
