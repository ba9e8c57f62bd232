-- ===== src/Lib.antt =====
-- ngx_wasm_module: state in shared memory, the Proxy-Wasm filter chain, bodies, operation plans.
--
-- The module runs Wasm filters inside nginx. What its workers share lives in zones of shared
-- memory: byte queues, key-value stores, and metrics, which are values of a key-value store.
-- Lua and Proxy-Wasm code calls their operations under the lock of the zone. In each phase of a
-- request the module runs the operations of the location's plan; the Proxy-Wasm operation resumes
-- the request's chain of filters, which the guests' headers enter and leave as marshalled pairs.
-- Guests read and write the bodies of the request and the response, which are chains of buffers.
--
-- Shm/Queue.antt: src/common/shm/ngx_wa_shm_queue.c. `Queue` is ngx_wa_shm_queue_t with its
--   buffer; `push`, `pop`, `queue_init` are ngx_wa_shm_queue_push_locked, _pop_locked and _init, over
--   `circular_write`, `circular_read`, `inc_ptr`, `queue_occupancy`. A copy outside the buffer
--   and a failed assertion (first argument: NGX_DEBUG) are a fault, `none`. The lemmas on the
--   ring are in Shm/Queue/Ring and Bytes, the framing of messages in Frames, the theorems in
--   Push, Pop and Fifo.
-- Shm/Kv.antt and Shm/Kv/Set.antt: src/common/shm/ngx_wa_shm_kv.c. `Kv` is ngx_wa_shm_kv_t with
--   the pool and the eviction policy of its zone; `get_locked`, `set_locked`, `kv_init` are the
--   functions of that name, `lru_expire` and `slru_expire` those of the policies. Nodes are
--   addresses into a heap and the eviction queues are lists of addresses, so that the use of a
--   freed node is a fault. nginx's slab pool, its red-black tree's insertion and deletion and its
--   CRC are the record `Host`; Shm/Kv/Laws states what is assumed of them (a granted block is not
--   in use, the tree keeps its entries in order). Shm/Kv/Entries has the tree as its entries in
--   order, View and Refine the theorems without eviction, Evict and Fault those with LRU eviction.
-- Metrics/Histogram.antt: src/common/metrics/ngx_wa_histogram.c and the types of
--   src/common/metrics/ngx_wa_metrics.h. `histogram_record`, `histogram_get`,
--   `histogram_add_locked` are the functions ngx_wa_metrics_histogram_*; the slab's answers are
--   Boolean arguments. The platform's `memcpy` is an argument as well, since the code copies bins
--   over regions that overlap, which C leaves undefined: theorems on the bins that are moved have
--   the hypothesis `IsMemmove`, that such a copy is that of memmove. Bounds has the bound of a value, Insert, Tally, Place and Record the
--   recording of a value, Merge the merging of the workers' histograms, Order the order of bins.
-- Metrics/Store.antt and Metrics/Store/Realloc.antt: src/common/metrics/ngx_wa_metrics.c.
--   `Metrics` is ngx_wa_metrics_t with what its key-value store holds under each identifier;
--   `define`, `increment`, `record_value`, `get` are the functions ngx_wa_metrics_define,
--   _increment, _record and _get, `realloc_metrics` the walk over the store of an old
--   configuration. Metrics/Store/Values, Define and Realloc have the theorems.
-- Http/Escape.antt: src/http/ngx_http_wasm_escape.c and ngx_http_copy_escaped of
--   src/http/ngx_http_wasm_util.c, which encode the bytes that a URI or a header does not admit.
--   `escape_count` and `escape` are the two ways to call ngx_http_wasm_escape.
-- ProxyWasm/Pairs.antt: the pairs of src/common/proxy_wasm/ngx_proxy_wasm_util.c, which hand
--   headers to a guest. `pairs_size`, `pairs_marshal` and `pairs_unmarshal` are the functions
--   ngx_proxy_wasm_pairs_size, _marshal and _unmarshal; ProxyWasm/Pairs/Size compares the first
--   two, Unmarshal the last two. A read behind the guest's memory is a fault.
-- ProxyWasm/Chain.antt: the chain of filters of a request, in
--   src/common/proxy_wasm/ngx_proxy_wasm.c. `resume` is ngx_proxy_wasm_resume, over `action2rc` and
--   `run_step` (ngx_proxy_wasm_run_step); what a guest does when it is called is an `Outcome`. A
--   filter outside the array is a fault. Chain/Cases has what the two answer, Order and Round a
--   round of the loop, Resume a resume, Sequence many of them, Well, Finish and Liveness how many a
--   step takes, Fault a pause where there is none.
-- Wasm/Ops.antt: src/wasm/ngx_wasm_ops.c, which runs the operations of a location in nginx's
--   phases. `plan_add`, `plan_load`, `ops_resume` are the functions ngx_wasm_ops_plan_add,
--   _plan_load and _resume, `call_handler` is ngx_wasm_op_call_handler; the handler of Proxy-Wasm
--   operations is an argument. `filter_data` has the field `data` of the filters. Ops/Add has the building of a plan, Call and Resume the run of
--   calls, Load and LoadAll the load of a plan, Skip an error in a request's first phase.
-- Wasm/Buffers.antt: the chains of buffers of src/wasm/ngx_wasm_util.c. `Links` has the links at
--   their addresses, and the list of free ones; `chain_len`, `chain_clear`, `get_free_buf`,
--   `chain_prepend`, `chain_append` are the functions ngx_wasm_chain_*, `get_tail` the loop of the
--   last. Buffers/Segments has a chain as the list of its links, Cut and Clear the clearing, Recycle
--   and Tail that loop, Link the free links, Relink, Content and Append the append, Well the chains
--   that are well formed: with different links, none of them free, and the full buffers first.
-- Http/Bodies.antt: the four functions ngx_http_wasm_{set,prepend}_{req,resp}_body of
--   src/http/ngx_http_wasm_util.c, over these chains; Bodies/Request has the request's body, Response
--   the response's chunk.
-- ProxyWasm/Bodies.antt: ngx_proxy_wasm_hfuncs_set_buffer and _get_buffer of
--   src/common/proxy_wasm/ngx_proxy_wasm_host.c, with which a guest writes and reads bodies, as
--   `host_set_buffer` and `host_get_buffer`; `buffer_source` is ngx_proxy_wasm_get_buffer_helper.
--   Bodies/Write, Read and RoundTrip have the request's body, written and read.
--
-- Sizes are 64-bit and lengths in a queue's header, hashes, versions and counts 32-bit unsigned
-- words, with their wrap-around written out. Loops over lists are structural; the two loops that
-- halve a number recurse on the accessibility of the order; the loop that expires nodes until the
-- pool grants a block runs on fuel, one round more than there are linked nodes, since each round
-- unlinks one. The loops over a chain of buffers have as much fuel as the chain has links, and
-- where a link is added one more.
--
-- Not modelled: logging; nginx's own code; the shared locks, so each operation is one step; the
-- lookup of zones (src/common/shm/ngx_wa_shm.c); the bytes of a metric in the
-- key-value store, and the set-up of the metrics' zone (ngx_wa_metrics_alloc, _init_conf,
-- _shm_init); the rest of Proxy-Wasm (src/common/proxy_wasm: loading
-- of filters, root contexts, host calls but those on buffers) and of the HTTP module
-- (src/http), the virtual machine, its backends and the core module
-- (src/wasm), the operations' handler for Proxy-Wasm, the sockets and the Lua bridge
-- (src/common).
pub mod Common
pub mod Shm
pub mod Metrics
pub mod Http
pub mod ProxyWasm
pub mod Wasm
