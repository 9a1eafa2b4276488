-- ===== src/HttpServer/Guards.antt =====
-- What a request of daemon/internal/daemon/httpserver/httpserver.go must pass before anything is
-- done for it.
use host_health_mcp.Base.{
  ◌≡◌, refl, Bytes, codes, text_eq, Bool, true, false, not, ◌||◌, none, some, length, ltb, ◌⊎◌, inl,
  inr, Bool-cases, Option-cases, Option,
}
use host_health_mcp.Cache
use host_health_mcp.RateLimit
use host_health_mcp.HttpServer.Identity.{caller_identity, is_empty, has_slash, cut_prefix}
use host_health_mcp.HttpServer.Replies.{
  Request, asked_for, Tool, Server, State, Clock, Course, write_error, write_envelope,
}
use host_health_mcp.HttpServer.{
  answer, or_braces, max_request_body, is_enabled, handle_tool_body, read_body, route, meter,
  handle_request,
}

module _ {W V : Type 0} (marshal : V → Option Bytes) (valid : Bytes → Bool)
    (cache_key : Bytes → Bytes → Bytes) (trim_space : Bytes → Bytes) (srv : Server W V) where
  -- Every guard of a request: a named caller, the limiter, the shape of the path, the method, a
  -- registered and enabled tool, a body that is read, fits and is JSON, and no live cache entry.
  pub record Admitted (clock : Clock) (r : Request) (s : State W) (tool : Tool W V) (body : Bytes)
      : Type 0 where
    pub named : is_empty (caller_identity trim_space r.peer) ≡ false
    pub allowed :
        (RateLimit.allow clock.metered
          (caller_identity trim_space r.peer)
          (asked_for r)
          s.limiter).1.0
        ≡ true
    pub shaped :
        (not (cut_prefix r.path (codes "/v1/")).1
          || is_empty (asked_for r)
          || has_slash (asked_for r))
        ≡ false
    pub posted : text_eq r.method (codes "POST") ≡ true
    pub registered : srv.registry (asked_for r) ≡ some tool
    pub enabled : is_enabled srv.enabled (asked_for r) ≡ true
    pub received : read_body r ≡ some body
    pub fits : ltb max_request_body (length body) ≡ false
    pub is_json : valid (or_braces body) ≡ true
    pub missed :
        Cache.lookup clock.looked_up (cache_key (asked_for r) (or_braces body)) s.entries ≡ none

  abbrev Untouched : State W → State W → Type 0
  Untouched s t = (t.world ≡ s.world) × (t.entries ≡ s.entries)

  -- The guards of `handle_tool_body` for a body.
  abbrev Readable : Clock → Request → Bytes → Cache.Entries → Bytes → Type 0
  Readable clock r name m body =
      (read_body r ≡ some body)
      × (ltb max_request_body (length body) ≡ false)
      × (valid (or_braces body) ≡ true)
      × (Cache.lookup clock.looked_up (cache_key name (or_braces body)) m ≡ none)

  handle_tool_body-Readable :
      (clock : Clock) (course : Course) (r : Request) (tool : Tool W V) (caller name : Bytes)
      (s : State W)
      → Untouched s (
          handle_tool_body marshal valid cache_key trim_space srv clock course r tool caller name s)
        ⊎ ((body : Bytes) × Readable clock r name s.entries body)
  unfolding handle_tool_body answer write_error write_envelope
  handle_tool_body-Readable clock course r tool caller name s = elim (Option-cases (read_body r)) [
    | inl cut ↦ rw (cut, handle_tool_body) (inl (refl, refl))
    | inr (body, received) ↦
        rw (received, handle_tool_body)
          (elim (Bool-cases (ltb max_request_body (length body))) [
            | inl big ↦ rw big (inl (refl, refl))
            | inr fits ↦ rw fits (elim (Bool-cases (valid (or_braces body))) [
              | inr bad ↦ rw bad (inl (refl, refl))
              | inl good ↦
                  rw good
                    (elim (Option-cases
                      (Cache.lookup clock.looked_up (cache_key name (or_braces body)) s.entries)) [
                        | inr (e, hit) ↦ rw (hit, answer) (inl (refl, refl))
                        | inl missed ↦ inr (body, (refl, fits, good, missed))
                      ])
            ])
          ])
  ]

  -- Either the host and the cache are as they were, or every guard was passed.
  pub handle_request-Admitted :
      (clock : Clock) (course : Course) (r : Request) (s : State W)
      → (let t = handle_request marshal valid cache_key trim_space srv clock course r s in
          ((t.world ≡ s.world) × (t.entries ≡ s.entries))
          ⊎ ((tool : Tool W V) × (body : Bytes) × Admitted clock r s tool body))
  unfolding handle_request meter route handle_tool_body answer write_error
  handle_request-Admitted clock course r s =
      let caller = caller_identity trim_space r.peer in
      let name = asked_for r in
      let verdict = RateLimit.allow clock.metered caller name s.limiter in
      let bad_path = not (cut_prefix r.path (codes "/v1/")).1 || is_empty name || has_slash name in
      elim (Bool-cases (is_empty caller)) [
        | inl anonymous ↦ rw anonymous (inl (refl, refl))
        | inr named ↦ rw named (elim (Bool-cases verdict.1.0) [
          | inr denied ↦ rw denied (inl (refl, refl))
          | inl allowed ↦ rw allowed (elim (Bool-cases bad_path) [
            | inl bad ↦ rw bad (inl (refl, refl))
            | inr shaped ↦ rw shaped (elim (Bool-cases (text_eq r.method (codes "POST"))) [
              | inr get ↦ rw get (inl (refl, refl))
              | inl posted ↦ rw posted (elim (Option-cases (srv.registry name)) [
                | inl unknown ↦ rw (unknown, route) (inl (refl, refl))
                | inr (tool, registered) ↦
                    rw (registered, route)
                      (elim (Bool-cases (is_enabled srv.enabled name)) [
                        | inr off ↦ rw off (inl (refl, refl))
                        | inl enabled ↦
                            rw enabled
                              (elim (handle_tool_body-Readable clock course r tool caller name
                                (record s { limiter = verdict.0 })) [
                                  | inl same ↦ inl same
                                  | inr (body, (received, fits, is_json, missed)) ↦ inr (
                                    tool,
                                    body,
                                    record {
                                      named = named;
                                      allowed = allowed;
                                      shaped = shaped;
                                      posted = posted;
                                      registered = registered;
                                      enabled = enabled;
                                      received = received;
                                      fits = fits;
                                      is_json = is_json;
                                      missed = missed;
                                    },
                                  )
                                ])
                      ])
              ])
            ])
          ])
        ])
      ]
