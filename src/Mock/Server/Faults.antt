-- ===== src/Mock/Server/Faults.antt =====
-- The answers of the handler on every branch, and the port that is taken.
use rust_fox.Prelude.{
  ℕ, zero, suc, ◌+◌, ◌≤◌, ◌<◌, ◌≡◌, refl, inl, inr, ◌⊎◌, any, append-nil, ltb, Bool, true, false,
  List, [], ◌∷◌, ◌++◌, Option, none, some, if◌then◌else◌, ◌==◌, list_eq, nat_eq, Bool-cases,
  Option-cases, arith, All,
}
use rust_fox.Prelude.Dict.{Dict}
use rust_fox.Prelude.Fallible.{returns}
use rust_fox.Prelude.Text.{Text, codes, contains, show}
use rust_fox.Core.External.{Sources, CaseMaps}
use rust_fox.Mock.Definition.{MockDefinition}
use rust_fox.Mock.Equivalence.{match_request-resolve}
use rust_fox.Mock.Match.{parse_query}
use rust_fox.Mock.Resolve.{Hit, resolve}
use rust_fox.Mock.Server.{
  HttpRules, Request, Response, Handled, not_found, faults, draws_after_fault, fault_response,
  own_headers, is_html, response_headers, build_response, respond, query_text, mock_handler,
  probe_ports, start_port, default_mock_port, max_port_tries, content_type,
}
use rust_fox.Mock.Store.{set_definitions}
use rust_fox.Mock.Template.Render.{render_template_with_query-total}
use rust_fox.Mock.Template.{render_template_with_query}

module _ (rules : HttpRules) (src : Sources) (cases : CaseMaps) where
  -- A definition with a fault rate of 0 never injects a fault.
  pub faults-zero :
      (def : MockDefinition) (n : ℕ) → def.fault_rate_pct ≡ 0 → faults rules src cases def n ≡ false
  unfolding faults
  faults-zero def n h = ground arith

  -- A definition with a fault rate of 100 or more injects a fault on every request.
  pub faults-full :
      (def : MockDefinition) (n : ℕ)
      → 100 ≤ def.fault_rate_pct
      → faults rules src cases def n ≡ true
  unfolding faults
  faults-full def n h = ground (arith, src.random_lt n 100 (omega arith))

  -- The headers of a definition that the `http` crate accepts, under the names that it gives them.
  pub data AreAccepted : Dict Text Text → List (Text × Text) → Type 0 where
    over : AreAccepted [] []
    refused_name :
        {hs : Dict Text Text} {out : List (Text × Text)} (k v : Text)
        → rules.header_name k ≡ none
        → AreAccepted hs out
        → AreAccepted ((k, v) ∷ hs) out
    refused_value :
        {hs : Dict Text Text} {out : List (Text × Text)} (k v : Text)
        → rules.value_ok v ≡ false
        → AreAccepted hs out
        → AreAccepted ((k, v) ∷ hs) out
    listed :
        {hs : Dict Text Text} {out : List (Text × Text)} (k v name : Text)
        → rules.header_name k ≡ some name
        → rules.value_ok v ≡ true
        → AreAccepted hs out
        → AreAccepted ((k, v) ∷ hs) ((name, v) ∷ out)

  -- An answer with its fields written out.
  abbrev response_with : ℕ → List (Text × Text) → Text → Response
  response_with status headers body = record { status = status; headers = headers; body = body }

  -- What a fault is answered with: its status if that is one, else 500, and a message in JSON.
  pub data IsFault (d : MockDefinition) : Response → Type 0 where
    fault_with :
        (status : ℕ)
        → (rules.status_ok d.fault_status ≡ true) × (status ≡ d.fault_status)
          ⊎ (rules.status_ok d.fault_status ≡ false) × (status ≡ 500)
        → IsFault d (
            response_with status
              ((codes "content-type", codes "application/json") ∷ [])
              (codes "{\"message\":\"Mock 故障注入（" ++ (show d.fault_rate_pct ++ codes "% 比例）\"}")))

  -- What a rendered body is answered with: under a status that is refused, an empty answer with 500;
  -- else the status, the body and the accepted headers, with a content type for JSON behind them
  -- unless a header's value speaks of HTML.
  pub data IsRendered (d : MockDefinition) (body : Text) : Response → Type 0 where
    refused_status : rules.status_ok d.status ≡ false → IsRendered d body (response_with 500 [] [])
    html :
        (own : List (Text × Text))
        → rules.status_ok d.status ≡ true
        → AreAccepted d.headers own
        → any (λ h. contains (cases.to_lowercase h.1) (codes "html")) d.headers ≡ true
        → IsRendered d body (response_with d.status own body)
    json :
        (own : List (Text × Text))
        → rules.status_ok d.status ≡ true
        → AreAccepted d.headers own
        → any (λ h. contains (cases.to_lowercase h.1) (codes "html")) d.headers ≡ false
        → IsRendered d body (
            response_with d.status
              (own ++ (codes "content-type", codes "application/json; charset=utf-8") ∷ [])
              body)

  -- The draw behind the chance of a fault, if there is one.
  abbrev pub Spared : MockDefinition → (n drawn : ℕ) → Type 0
  Spared d n drawn =
      (d.fault_rate_pct ≡ 0) × (drawn ≡ n)
      ⊎ (0 < d.fault_rate_pct) × (d.fault_rate_pct ≤ src.random n 100) × (drawn ≡ n + 1)

  abbrev handled : ℕ → Response → ℕ → Handled
  handled slept_ms r draws = record { slept_ms = slept_ms; response = some r; draws = draws }

  -- The answer to a request: a 404 at once if nothing matches; else, after the delay of the
  -- definition, the fault if the draw falls below its rate, or the rendered body.
  pub data Handles (req : Request) (n : ℕ) : Option Hit → Handled → Type 0 where
    unmatched : Handles req n none (handled 0 not_found n)
    faulted :
        (d : MockDefinition) (vars : Dict Text Text) (r : Response)
        → 0 < d.fault_rate_pct
        → src.random n 100 < d.fault_rate_pct
        → IsFault d r
        → Handles req n (some (d, vars)) (handled d.delay_ms r (n + 1))
    rendered :
        (d : MockDefinition) (vars : Dict Text Text) (r : Response) (body : Text) (drawn draws : ℕ)
        → Spared d n drawn
        → render_template_with_query src cases vars
            (parse_query (query_text req.query))
            req.headers
            d.body_template
            drawn
          ≡ some (body, draws)
        → IsRendered d body r
        → Handles req n (some (d, vars)) (handled d.delay_ms r draws)

  own_headers-AreAccepted : (hs : Dict Text Text) → AreAccepted hs (own_headers rules src cases hs)
  unfolding own_headers
  own_headers-AreAccepted [] = over
  own_headers-AreAccepted ((k, v) ∷ hs) = elim (Option-cases (rules.header_name k)) [
    | inl e ↦ rw (e, own_headers) (refused_name k v e (own_headers-AreAccepted hs))
    | inr (name, e) ↦ elim (Bool-cases (rules.value_ok v)) [
      | inl f ↦ rw (e, f, own_headers) (listed k v name e f (own_headers-AreAccepted hs))
      | inr f ↦ rw (e, f, own_headers) (refused_value k v f (own_headers-AreAccepted hs))
    ]
  ]

  fault_response-IsFault : (d : MockDefinition) → IsFault d (fault_response rules src cases d)
  unfolding fault_response
  fault_response-IsFault d = elim (Bool-cases (rules.status_ok d.fault_status)) [
    | inl e ↦ rw e (fault_with d.fault_status (inl (e, refl)))
    | inr e ↦ rw e (fault_with 500 (inr (e, refl)))
  ]

  build_response-IsRendered :
      (d : MockDefinition) (body : Text) → IsRendered d body (build_response rules src cases d body)
  unfolding build_response response_headers
  build_response-IsRendered d body = elim (Bool-cases (rules.status_ok d.status)) [
    | inr e ↦ rw e (refused_status e)
    | inl e ↦ elim (Bool-cases (is_html rules src cases d.headers)) [
      | inl f ↦ rw (e, f, append-nil) (html _ e (own_headers-AreAccepted d.headers) f)
      | inr f ↦ rw (e, f) (json _ e (own_headers-AreAccepted d.headers) f)
    ]
  ]

  faults-drawn :
      (d : MockDefinition) (n : ℕ)
      → faults rules src cases d n ≡ true
      → (0 < d.fault_rate_pct)
        × (src.random n 100 < d.fault_rate_pct)
        × (draws_after_fault d n ≡ n + 1)
  unfolding faults
  faults-drawn d n e = ground arith

  faults-Spared :
      (d : MockDefinition) (n : ℕ)
      → faults rules src cases d n ≡ false
      → Spared d n (draws_after_fault d n)
  unfolding faults
  faults-Spared d n e = elim (Bool-cases (ltb 0 d.fault_rate_pct)) [
    | inl on ↦ inr (ground arith, ground arith, ground arith)
    | inr off ↦ inl (ground arith, ground arith)
  ]

  respond-Handles :
      (req : Request) (n : ℕ) (d : MockDefinition) (vars : Dict Text Text)
      → Handles req n
          (some (d, vars))
          (respond rules src cases (d, vars, parse_query (query_text req.query)) req.headers n)
  unfolding respond
  respond-Handles req n d vars = elim (Bool-cases (faults rules src cases d n)) [
    | inl e ↦
        let (on, below, drawn) = faults-drawn d n e in
        rw (e, drawn, respond)
          (faulted d vars (fault_response rules src cases d) on below (fault_response-IsFault d))
    | inr e ↦
        let ((body, draws), f) =
          render_template_with_query-total src cases vars (parse_query (query_text req.query))
            req.headers d.body_template (draws_after_fault d n) in
        rw (e, f, respond)
          (rendered d vars (build_response rules src cases d body) body (draws_after_fault d n)
            draws (faults-Spared d n e) f (build_response-IsRendered d body))
  ]

  -- On a store set from any definitions, the handler never panics and never fails to answer. With no
  -- match it answers 404 without a delay. Else it waits for the delay of the definition that `resolve`
  -- picks. If that has a fault rate and the number drawn is below it, the answer is a message in JSON
  -- under the status of the fault, or under 500 if that is no status. Otherwise the template is rendered,
  -- and the answer is the body under the definition's status with those of its headers that the `http`
  -- crate accepts, in their order, and behind them a content type for JSON unless a header's value holds
  -- `html`; or it is an empty 500 if the status is refused.
  pub mock_handler-Handles :
      (defs : List MockDefinition) (req : Request) (n : ℕ)
      → (h : Handled) × (mock_handler rules src cases (set_definitions defs) req n ≡ returns h)
        × Handles req n (resolve req.method req.path (query_text req.query) req.headers defs) h
  unfolding mock_handler
  mock_handler-Handles defs req n =
      elim (Option-cases (resolve req.method req.path (query_text req.query) req.headers defs)) [
        | inl e ↦ rw (match_request-resolve, e, mock_handler) (_, refl, unmatched)
        | inr ((d, vars), e) ↦
            rw (match_request-resolve, e, mock_handler) (_, refl, respond-Handles req n d vars)
      ]

-- How many headers have the name `k`.
abbrev pub count_named : Text → List (Text × Text) → ℕ
count_named k [] = 0
count_named k ((j, v) ∷ hs) = (if j == k then 1 else 0) + count_named k hs

count_named-append :
    (k : Text) (hs is : List (Text × Text))
    → count_named k (hs ++ is) ≡ count_named k hs + count_named k is
count_named-append k [] is = omega arith
count_named-append k ((j, v) ∷ hs) is = omega (arith, count_named-append k hs is)

module _ (rules : HttpRules) (src : Sources) (cases : CaseMaps) where
  own_headers-content_type :
      (pre post : Dict Text Text) (k v : Text)
      → rules.header_name k ≡ some content_type
      → rules.value_ok v ≡ true
      → 1 ≤ count_named content_type (own_headers rules src cases (pre ++ (k, v) ∷ post))
  unfolding own_headers
  own_headers-content_type [] post k v named ok = rw (named, ok, own_headers) (omega arith)
  own_headers-content_type ((j, w) ∷ pre) post k v named ok =
      ground (arith, own_headers-content_type pre post k v named ok)

  -- A definition that sets a valid Content-Type of its own, and has no header value with `html`,
  -- is answered with two Content-Type headers or more: the default one is added behind its own.
  pub response_headers-content_type_twice :
      (pre post : Dict Text Text) (k v : Text)
      → rules.header_name k ≡ some content_type
      → rules.value_ok v ≡ true
      → is_html rules src cases (pre ++ (k, v) ∷ post) ≡ false
      → 2 ≤ count_named content_type (response_headers rules src cases (pre ++ (k, v) ∷ post))
  unfolding response_headers
  response_headers-content_type_twice pre post k v named ok plain = rw (plain) (
      omega (
        arith,
        own_headers-content_type pre post k v named ok,
        count_named-append (content_type) (own_headers rules src cases (pre ++ (k, v) ∷ post))
            ((content_type, codes "application/json; charset=utf-8") ∷ []),
      ))

-- `n` ports from `lo` on.
abbrev pub ports : (lo n : ℕ) → List ℕ
ports lo zero = []
ports lo (suc n) = lo ∷ ports (suc lo) n

module _ (binds : ℕ → Bool) where
  -- All of the ports are taken, or `p` is the first free one among them.
  abbrev pub Probed : (lo n : ℕ) → Option ℕ → Type 0
  Probed lo n none = All (λ q. binds q ≡ false) (ports lo n)
  Probed lo n (some p) =
      (k : ℕ) × (p ≡ lo + k) × (k < n) × (binds p ≡ true) × All (λ q. binds q ≡ false) (ports lo k)

  Probed-suc :
      (n lo : ℕ) (o : Option ℕ) → binds lo ≡ false → Probed (suc lo) n o → Probed lo (suc n) o
  Probed-suc n lo none taken h = (taken, h)
  Probed-suc n lo (some p) taken (k, at_k, inside, free, rest) =
      (suc k, omega arith, omega arith, free, (taken, rest))

  probe_ports-Probed : (tries port : ℕ) → Probed port tries (probe_ports binds tries port)
  unfolding probe_ports
  probe_ports-Probed zero port = tt
  probe_ports-Probed (suc tries) port = elim (Bool-cases (binds port)) [
    | inl free ↦ rw free (0, omega arith, omega arith, free, tt)
    | inr taken ↦ rw taken (Probed-suc tries port _ taken (probe_ports-Probed tries (suc port)))
  ]

  -- `start` takes the first port that binds among the 20 from 4010 on, and fails only if none of
  -- them does.
  pub start_port-Probed : Probed 4010 20 (start_port binds)
  unfolding start_port
  start_port-Probed = probe_ports-Probed max_port_tries default_mock_port
