-- ===== src/Plugin/Exchanges.antt =====
-- The exchange of lines and responses of a session of plugin/internal/mcp/mcp.go.
use host_health_mcp.Base.{
  ◌≡◌, refl, sym, ap, ◌∙◌, subst, Bytes, codes, text_eq, text_eq_iff, Bool, true, false, not,
  Option, none, some, List, [], ◌∷◌, ◌++◌, inl, inr, arith, Option-cases, Bool-cases, if◌then◌else◌,
}
use host_health_mcp.Plugin.Server.{Request, Answer, Response, Env, Server, State}
use host_health_mcp.Plugin.Serve.{dispatch, is_notification, write, replies, serve_line, serve}

-- `notifications/initialized`, the method that has no response.
abbrev pub silent_method : Bytes
silent_method = codes "notifications/initialized"

module _ {Json W : Type 0} (env : Env Json W) (srv : Server Json) where
  abbrev pub ids : List (Response Json) → List Bytes
  ids [] = []
  ids (r ∷ rs) = r.id ∷ ids rs

  -- The ids that a line is to be answered under: its own, or none for a notification; an empty one,
  -- which is the null of JSON, for a line that is no request.
  abbrev pub due_of : Option Request → List Bytes
  due_of none = [] ∷ []
  due_of (some req) =
      if is_notification env srv req
      then []
      else if text_eq req.method silent_method
      then []
      else req.id ∷ []

  -- Those of the lines up to the end of the context.
  abbrev pub due : List (Bytes × Bool) → List Bytes
  due [] = []
  due ((line, true) ∷ ls) = []
  due (([], false) ∷ ls) = due ls
  due ((c ∷ cs, false) ∷ ls) = due_of (env.parse_request (c ∷ cs)) ++ due ls

  abbrev has_answer : Option (Answer Json) → Bool
  has_answer none = false
  has_answer (some a) = true

  answer_if :
      (b : Bool) (s r : State W × Option (Answer Json))
      → has_answer s.1 ≡ true
      → has_answer r.1 ≡ true
      → has_answer (if b then s else r).1 ≡ true
  answer_if true s r h k = h
  answer_if false s r h k = k

  initialize_not_silent :
      (m : Bytes) → text_eq m (codes "initialize") ≡ true → text_eq m silent_method ≡ false
  unfolding text_eq
  initialize_not_silent m h =
      subst (λ (k : Bytes). text_eq k silent_method ≡ false)
        (sym ((text_eq_iff m (codes "initialize")).0 h)) refl

  has_answer-dispatch :
      (req : Request) (s : State W)
      → has_answer (dispatch env srv req s).1 ≡ not (text_eq req.method silent_method)
  unfolding dispatch
  has_answer-dispatch req s = elim (Bool-cases (text_eq req.method (codes "initialize"))) [
    | inl first ↦ rw (first, initialize_not_silent req.method first) refl
    | inr other ↦ elim (Bool-cases (text_eq req.method silent_method)) [
      | inl silent ↦ rw (other, silent) refl
      | inr spoken ↦
          rw (other, spoken)
            (answer_if (text_eq req.method (codes "ping")) _ _ refl (
              answer_if (text_eq req.method (codes "tools/list")) _ _ refl
                (answer_if (text_eq req.method (codes "tools/call")) _ _ refl refl)))
    ]
  ]

  ids-append : (rs ts : List (Response Json)) → ids (rs ++ ts) ≡ ids rs ++ ids ts
  ids-append [] ts = refl
  ids-append (r ∷ rs) ts = ap (◌∷◌ r.id) (ids-append rs ts)

  module _ (marshals : (r : Response Json) → env.can_marshal r ≡ true) where
    ids-write : (r : Response Json) → ids (write env srv r) ≡ r.id ∷ []
    ids-write r = rw (marshals r) refl

    ids-replies :
        (req : Request) (a : Option (Answer Json))
        → has_answer a ≡ not (text_eq req.method silent_method)
        → ids (replies env srv req a) ≡ due_of (some req)
    ids-replies req none h = elim (Bool-cases (is_notification env srv req)) [
      | inl quiet ↦ rw quiet refl
      | inr loud ↦
          let silent : text_eq req.method silent_method ≡ true = ground (arith, h) in
          rw (loud, silent) refl
    ]
    ids-replies req (some a) h = elim (Bool-cases (is_notification env srv req)) [
      | inl quiet ↦ rw quiet refl
      | inr loud ↦
          let spoken : text_eq req.method silent_method ≡ false = ground (arith, h) in
          rw (loud, spoken) (ids-write (record { id = req.id; answer = a }))
    ]

    ids-serve_line :
        (line : Bytes) (s : State W)
        → ids (serve_line env srv line s).1 ≡ due_of (env.parse_request line)
    unfolding serve_line
    ids-serve_line line s = elim (Option-cases (env.parse_request line)) [
      | inl unread ↦ rw (unread, serve_line) (ids-write _)
      | inr (req, read) ↦ rw (read, serve_line) (ids-replies req _ (has_answer-dispatch req s))
    ]

    -- Where every response can be marshalled, a session writes exactly one response for each line that
    -- is no request, or is one with an id and not of the method notifications/initialized, in the order
    -- of the lines and under their ids, and none for other lines or after the end of the context.
    pub ids-serve : (ls : List (Bytes × Bool)) (s : State W) → ids (serve env srv ls s).1 ≡ due ls
    unfolding serve
    ids-serve [] s = refl
    ids-serve ((line, true) ∷ ls) s = refl
    ids-serve (([], false) ∷ ls) s = ids-serve ls s
    ids-serve ((c ∷ cs, false) ∷ ls) s =
        let (s', out) = serve_line env srv (c ∷ cs) s in
        ids-append out (serve env srv ls s').1
        ∙ ap (λ is. is ++ ids (serve env srv ls s').1) (ids-serve_line (c ∷ cs) s)
        ∙ ap (λ is. due_of (env.parse_request (c ∷ cs)) ++ is) (ids-serve ls s')
