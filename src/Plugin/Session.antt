-- ===== src/Plugin/Session.antt =====
-- The verdicts on hosts over a session of plugin/internal/mcp/mcp.go.
use host_health_mcp.Base.{
  ◌≡◌, refl, ◌∙◌, subst, Bytes, codes, text_eq, text_eq_iff, Bool, true, false, Option, none, some,
  List, [], ◌∷◌, inl, inr, arith, Option-cases, Bool-cases, if◌then◌else◌, ◌*◌,
}
use host_health_mcp.Base.Eq.{bytes_eq}
use host_health_mcp.Base.Assoc
use host_health_mcp.Base.Result.{Result, ok, err}
use host_health_mcp.Plugin.Host.{HostError, resolve_host, host_has_port}
use host_health_mcp.Plugin.Client.{CallResult, replied, refused, failed}
use host_health_mcp.Plugin.Compat.{
  Reason, HostCompat, incompatible, Compat, record_compat_from_envelope,
}
use host_health_mcp.Plugin.Server.{
  Tool, Request, CallParams, ProbeError, ToolError, schema_incompatible, Answer, tool_error, Env,
  Server, State, manifest, second, find_tool, host_of, build_daemon_body, contact, probed,
  probe_compat, after_probe, gate,
}
use host_health_mcp.Plugin.Serve.{
  returned, forward, through, call_on, on_resolved, on_host, call_tool, dispatch, serve_line, serve,
}

-- A verdict is kept when another host's is written.
insert-kept :
    (k h : Bytes) (v w : HostCompat) (m : Compat)
    → Assoc.lookup h m ≡ some v
    → Assoc.lookup k m ≡ none
    → Assoc.lookup h (Assoc.insert k w m) ≡ some v
insert-kept k h v w m held absent = elim (Bool-cases (text_eq k h)) [
  | inl same ↦
      let is : k ≡ h = (text_eq_iff k h).0 same in
      absurd (ground (arith, held, subst (λ (j : Bytes). Assoc.lookup j m ≡ none) is absent))
  | inr other ↦ Assoc.lookup-insert k h w m ∙ rw other held
]

module _ {Json W : Type 0} (env : Env Json W) (srv : Server Json) (host : Bytes)
    (v : HostCompat) where
  abbrev Holds : State W → Type 0
  Holds s = Assoc.lookup host s.compat ≡ some v

  Holds-probed :
      (k : Bytes) (s : State W) (r : W × CallResult)
      → Assoc.lookup k s.compat ≡ none
      → Holds s
      → Holds (probed env srv k s r).0
  unfolding record_compat_from_envelope
  Holds-probed k s (w, replied raw) absent h = insert-kept k host v _ s.compat h absent
  Holds-probed k s (w, refused e) absent h = h
  Holds-probed k s (w, failed) absent h = h

  Holds-after_probe :
      (k : Bytes) (r : State W × Option ProbeError) → Holds r.0 → Holds (after_probe env srv k r).0
  Holds-after_probe k (s, some e) h = h
  Holds-after_probe k (s, none) h = h

  Holds-gate : (k : Bytes) (s : State W) → Holds s → Holds (gate env srv k s).0
  unfolding gate probe_compat
  Holds-gate k s h = elim (Option-cases (Assoc.lookup k s.compat)) [
    | inl absent ↦
        rw (absent, gate)
          (Holds-after_probe k (probe_compat env srv k s) (
            Holds-probed k s (contact env srv s.world (5 * second) k manifest (codes "{}")) absent
              h))
    | inr (u, known) ↦ rw (known, gate) h
  ]

  Holds-returned :
      (t : Tool Json) (k : Bytes) (s : State W) (r : W × CallResult)
      → Holds s
      → Holds (returned env srv t k s r).0
  unfolding record_compat_from_envelope
  Holds-returned t k s (w, failed) h = h
  Holds-returned t k s (w, refused e) h = h
  Holds-returned t k s (w, replied raw) h = elim (Bool-cases (text_eq t.daemon_rpc manifest)) [
    | inr other ↦ rw other h
    | inl is_manifest ↦ elim (Bool-cases (Assoc.has_key k s.compat)) [
      | inl known ↦ rw (is_manifest, known) h
      | inr unknown ↦
          rw (is_manifest, unknown)
            (insert-kept k host v _ s.compat h (Assoc.lookup-absent k s.compat unknown))
    ]
  ]

  Holds-forward :
      (t : Tool Json) (k : Bytes) (args : List (Bytes × Json)) (s : State W)
      → Holds s
      → Holds (forward env srv t k args s).0
  unfolding forward
  Holds-forward t k args s h = elim (Option-cases (build_daemon_body env srv args)) [
    | inl unmarshalled ↦ rw (unmarshalled, forward) h
    | inr (body, made) ↦ rw (made, forward) (Holds-returned t k s _ h)
  ]

  Holds-through :
      (t : Tool Json) (k : Bytes) (args : List (Bytes × Json)) (r : State W × Option ToolError)
      → Holds r.0
      → Holds (through env srv t k args r).0
  Holds-through t k args (s, some e) h = h
  Holds-through t k args (s, none) h = Holds-forward t k args s h

  Holds-call_on :
      (t : Tool Json) (k : Bytes) (args : List (Bytes × Json)) (s : State W)
      → Holds s
      → Holds (call_on env srv t k args s).0
  unfolding call_on
  Holds-call_on t k args s h = elim (Bool-cases (text_eq t.daemon_rpc manifest)) [
    | inl is_manifest ↦ rw is_manifest (Holds-forward t k args s h)
    | inr other ↦ rw other (Holds-through t k args _ (Holds-gate k s h))
  ]

  Holds-on_resolved :
      (t : Tool Json) (args : List (Bytes × Json)) (s : State W) (r : Result HostError Bytes)
      → Holds s
      → Holds (on_resolved env srv t args s r).0
  Holds-on_resolved t args s (err e) h = h
  Holds-on_resolved t args s (ok k) h = Holds-call_on t k args s h

  Holds-on_host :
      (t : Tool Json) (args : List (Bytes × Json)) (s : State W) (name : Bytes)
      → Holds s
      → Holds (on_host env srv t args s name).0
  Holds-on_host t args s [] h = h
  Holds-on_host t args s (c ∷ cs) h = Holds-on_resolved t args s _ h

  Holds-call_tool : (params : Bytes) (s : State W) → Holds s → Holds (call_tool env srv params s).0
  unfolding call_tool
  Holds-call_tool params s h = elim (Option-cases (env.parse_params params)) [
    | inl unread ↦ rw (unread, call_tool) h
    | inr (p, read) ↦ elim (Option-cases (find_tool p.name srv.tools)) [
      | inl unknown ↦ rw (read, unknown, call_tool) h
      | inr (t, found) ↦ rw (read, found, call_tool) (Holds-on_host t p.arguments s _ h)
    ]
  ]

  Holds-if :
      (b : Bool) (s r : State W × Option (Answer Json))
      → Holds s.0
      → Holds r.0
      → Holds (if b then s else r).0
  Holds-if true s r h k = h
  Holds-if false s r h k = k

  Holds-dispatch : (req : Request) (s : State W) → Holds s → Holds (dispatch env srv req s).0
  unfolding dispatch
  Holds-dispatch req s h = Holds-if (text_eq req.method (codes "initialize")) _ _ h (
      Holds-if (text_eq req.method (codes "notifications/initialized")) _ _ h (
        Holds-if (text_eq req.method (codes "ping")) _ _ h (
          Holds-if (text_eq req.method (codes "tools/list")) _ _ h (
            Holds-if (text_eq req.method (codes "tools/call")) _ _ (Holds-call_tool req.params s h)
              h))))

  Holds-serve_line : (line : Bytes) (s : State W) → Holds s → Holds (serve_line env srv line s).0
  unfolding serve_line
  Holds-serve_line line s h = elim (Option-cases (env.parse_request line)) [
    | inl unread ↦ rw (unread, serve_line) h
    | inr (req, read) ↦ rw (read, serve_line) (Holds-dispatch req s h)
  ]

  Holds-serve : (ls : List (Bytes × Bool)) (s : State W) → Holds s → Holds (serve env srv ls s).0
  unfolding serve
  Holds-serve [] s h = h
  Holds-serve ((line, true) ∷ ls) s h = h
  Holds-serve (([], false) ∷ ls) s h = Holds-serve ls s h
  Holds-serve ((c ∷ cs, false) ∷ ls) s h = Holds-serve ls _ (Holds-serve_line (c ∷ cs) s h)

module _ {Json W : Type 0} (env : Env Json W) (srv : Server Json) where
  -- A tool other than the manifest, on a host whose verdict is known to be bad.
  call_on_incompatible :
      (t : Tool Json) (host : Bytes) (reason : Reason) (args : List (Bytes × Json)) (s : State W)
      → text_eq t.daemon_rpc manifest ≡ false
      → Assoc.lookup host s.compat ≡ some (incompatible reason)
      → call_on env srv t host args s ≡ (s, tool_error (schema_incompatible reason))
  unfolding call_on gate
  call_on_incompatible t host reason args s other known = rw (other, known, gate) refl

  -- Once a host's verdict is that its schema is incompatible, a call of any tool but the manifest
  -- that resolves to this host, after whatever further lines the session serves, answers with that
  -- verdict and changes neither the verdicts nor the world behind the network.
  pub serve-call_tool_incompatible :
      (host : Bytes) (reason : Reason) (ls : List (Bytes × Bool)) (s : State W) (params : Bytes)
      (p : CallParams Json) (t : Tool Json)
      → Assoc.lookup host s.compat ≡ some (incompatible reason)
      → env.parse_params params ≡ some p
      → find_tool p.name srv.tools ≡ some t
      → text_eq t.daemon_rpc manifest ≡ false
      → resolve_host env.int_text srv.config (host_of env srv p.arguments) ≡ ok host
      → call_tool env srv params (serve env srv ls s).0
        ≡ ((serve env srv ls s).0, tool_error (schema_incompatible reason))
  unfolding call_tool resolve_host host_has_port
  serve-call_tool_incompatible host reason ls s params p t known read found other resolved =
      let later = Holds-serve env srv host (incompatible reason) ls s known in
      rw (read, found, call_tool) (on_known (host_of env srv p.arguments) resolved later)
    where
      on_known :
          (name : Bytes)
          → resolve_host env.int_text srv.config name ≡ ok host
          → Assoc.lookup host (serve env srv ls s).0.compat ≡ some (incompatible reason)
          → on_host env srv t p.arguments (serve env srv ls s).0 name
            ≡ ((serve env srv ls s).0, tool_error (schema_incompatible reason))
      on_known [] is held = ground (arith, is)
      on_known (c ∷ cs) is held =
          rw is (call_on_incompatible t host reason p.arguments _ other held)
