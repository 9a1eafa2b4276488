-- ===== src/HttpServer/Reuse.antt =====
-- What a finished call leaves in the cache for the next request, in
-- daemon/internal/daemon/httpserver/httpserver.go.
use host_health_mcp.Base.{
  ℕ, ◌≡◌, refl, ◌∙◌, ap, Bytes, Bool, true, false, Option, none, some, List, ◌/◌, arith,
}
use host_health_mcp.Base.Eq.{bytes_eq}
use host_health_mcp.Base.Assoc
use host_health_mcp.Base.Result.{ok}
use host_health_mcp.Cache
use host_health_mcp.Cache.Entries.{accepts}
use host_health_mcp.HttpServer.Replies.{
  Tool, Server, State, Clock, Course, led, write_envelope, conclude, second,
}
use host_health_mcp.HttpServer.{finish, run_tool, do_call, answer, extract_audit_args}

-- A stored entry is found for as long as it has not expired, if the map had room for it.
lookup-store_later :
    (now later : ℕ) (k : Bytes) (e : Cache.Entry) (m : Cache.Entries)
    → accepts now k m ≡ true
    → Cache.expired later e ≡ false
    → Cache.lookup later k (Cache.store now k e m) ≡ some e
unfolding Cache.lookup Cache.store Cache.sweep_locked accepts
lookup-store_later now later k e m a x = ground (
  arith,
  Assoc.lookup-insert k k e m,
  Assoc.lookup-insert k k e (Assoc.sweep (Cache.expired now) m),
  (bytes_eq.beq_iff k k).1 refl,
)

module _ {W V : Type 0} (marshal : V → Option Bytes) (valid : Bytes → Bool)
    (cache_key : Bytes → Bytes → Bytes) (trim_space : Bytes → Bytes) (srv : Server W V) where
  -- The entry that a call which ends well at `clock` makes.
  abbrev pub entry_of : Clock → Tool W V → Bytes → Bytes → List Bytes → Cache.Entry
  entry_of clock tool name raw warnings = record {
    payload = raw;
    warnings = warnings;
    builtat = clock.observed;
    ttl = srv.cache_ttl name tool.default_ttl;
  }

  answer-hit :
      (clock : Clock) (course : Course) (tool : Tool W V) (caller name body : Bytes) (s : State W)
      (e : Cache.Entry)
      → Cache.lookup clock.looked_up (cache_key name body) s.entries ≡ some e
      → answer marshal valid cache_key trim_space srv clock course tool caller name body s
        ≡ write_envelope caller name
            (extract_audit_args tool body)
            e
            (Cache.age clock.answered e / second)
            s
  unfolding answer
  answer-hit clock course tool caller name body s e hit = rw (hit, answer) refl

  -- A call of a tool that missed the cache and ended well answers with its result, of age 0; and
  -- if the cache had room, the next request for the same tool and body, from whatever caller and
  -- while the result has not expired, is answered with that result and its age, and the host is
  -- not asked again.
  pub answer_again :
      (clock clock' : Clock) (course : Course) (tool : Tool W V)
      (caller caller' name body raw : Bytes) (s : State W) (w : W) (v : V) (warnings : List Bytes)
      → Cache.lookup clock.looked_up (cache_key name body) s.entries ≡ none
      → tool.handle s.world (srv.timeout name tool.default_timeout) body ≡ (w, ok (v, warnings))
      → marshal v ≡ some raw
      → accepts clock.stored (cache_key name body) s.entries ≡ true
      → Cache.expired clock'.looked_up (entry_of clock tool name raw warnings) ≡ false
      → (let e = entry_of clock tool name raw warnings in
          let args = extract_audit_args tool body in
          let kept = record s {
            world = w;
            entries = Cache.store clock.stored (cache_key name body) e s.entries;
          } in
          let t = answer marshal valid cache_key trim_space srv clock led tool caller name body s in
          (t ≡ write_envelope caller name args e 0 kept)
          × (answer marshal valid cache_key trim_space srv clock' course tool caller' name body t
              ≡ write_envelope caller' name args e (Cache.age clock'.answered e / second) t))
  answer_again clock clock' course tool caller caller' name body raw s w v warnings missed done
        shown room fresh =
      let e : Cache.Entry = entry_of clock tool name raw warnings in
      let first = ran in
      (
        first,
        answer-hit clock' course tool caller' name body _ e (
            ap (λ (t : State W). Cache.lookup clock'.looked_up (cache_key name body) t.entries)
              first
            ∙ (unfold write_envelope in
                lookup-store_later clock.stored clock'.looked_up (cache_key name body) e s.entries
                  room fresh)),
      )
    where
      ran :
          answer marshal valid cache_key trim_space srv clock led tool caller name body s
          ≡ write_envelope caller name
              (extract_audit_args tool body)
              (entry_of clock tool name raw warnings)
              0
              (record s {
                world = w;
                entries =
                    Cache.store clock.stored
                      (cache_key name body)
                      (entry_of clock tool name raw warnings)
                      s.entries;
              })
      ran =
          unfold answer do_call run_tool finish conclude in
          rw (missed, done, shown, answer, finish) refl
