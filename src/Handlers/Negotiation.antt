-- ===== src/Handlers/Negotiation.antt =====
-- When `/metrics` answers in the format of Prometheus.
use mathlib.Core.Bool.{false≢true}
use server_watch.Base.{
  sym, ◌∙◌, ◌≡◌, ◌≢◌, ◌↔◌, ◌⊎◌, refl, inl, inr, true, List, [], ◌∷◌, ◌++◌, String, str_eq,
  str_eq_iff, ok, err, Error, arith, Result-cases, Bool-cases, ap,
}
use server_watch.Http.{Request}
use server_watch.Handlers.{HttpEnv}
use server_watch.Handlers.Metrics.{accepts_part, accepts_prometheus}

module _ {F : Type 0} (env : HttpEnv F) where
  -- A media type of Prometheus whose weight is not "0".
  pub record IsWanted (part : String) : Type 0 where
    pub media_type : String
    pub params : String → String
    pub parsed : env.parse_media_type part ≡ ok (media_type, params)
    pub weighed : params "q" ≢ "0"
    pub known : (media_type ≡ "text/plain") ⊎ (media_type ≡ "application/openmetrics-text")

  -- A part that can be parsed and is not wanted.
  pub record IsPassed (part : String) : Type 0 where
    pub media_type : String
    pub params : String → String
    pub parsed : env.parse_media_type part ≡ ok (media_type, params)
    pub other :
        (params "q" ≡ "0")
        ⊎ ((media_type ≢ "text/plain") × (media_type ≢ "application/openmetrics-text"))

  abbrev pub AllPassed : List String → Type 0
  AllPassed [] = Unit {0}
  AllPassed (part ∷ parts) = IsPassed part × AllPassed parts

  -- Somewhere a part is wanted, and every part before it is passed.
  abbrev pub Prefers : List String → Type 0
  Prefers parts =
      (before : List String) × (part : String) × (after : List String) × (parts
        ≡ before ++ part ∷ after)
      × AllPassed before
      × IsWanted part

  accepts_part-wanted :
      (part : String) (rest : List String)
      → IsWanted part
      → accepts_part env (part ∷ rest) ≡ ok true
  unfolding accepts_part
  accepts_part-wanted part rest h = ground (
    arith,
    str_eq_iff (h.params "q") "0",
    str_eq_iff h.media_type "text/plain",
    str_eq_iff h.media_type "application/openmetrics-text",
  )

  accepts_part-passed :
      (part : String) (rest : List String)
      → IsPassed part
      → accepts_part env (part ∷ rest) ≡ accepts_part env rest
  unfolding accepts_part
  accepts_part-passed part rest h = ground (
    arith,
    str_eq_iff (h.params "q") "0",
    str_eq_iff h.media_type "text/plain",
    str_eq_iff h.media_type "application/openmetrics-text",
  )

  accepts_part-garbled :
      (part : String) (rest : List String) {e : Error}
      → env.parse_media_type part ≡ err e
      → accepts_part env (part ∷ rest) ≢ ok true
  unfolding accepts_part
  accepts_part-garbled part rest h = ground arith

  parsed-IsWanted :
      (part media_type : String) (params : String → String)
      → env.parse_media_type part ≡ ok (media_type, params)
      → IsWanted part ⊎ IsPassed part
  parsed-IsWanted part media_type params parsed = elim (decide (params "q") "0") [
    | inl zero ↦
        inr (record { media_type = media_type; params = params; parsed = parsed; other = inl zero })
    | inr weighed ↦ elim (decide media_type "text/plain") [
      | inl plain ↦ inl (record {
        media_type = media_type;
        params = params;
        parsed = parsed;
        weighed = weighed;
        known = inl plain;
      })
      | inr not_plain ↦ elim (decide media_type "application/openmetrics-text") [
        | inl metrics ↦ inl (record {
          media_type = media_type;
          params = params;
          parsed = parsed;
          weighed = weighed;
          known = inr metrics;
        })
        | inr not_open ↦ inr (record {
          media_type = media_type;
          params = params;
          parsed = parsed;
          other = inr (not_plain, not_open);
        })
      ]
    ]
  ]
    where
      decide : (x y : String) → (x ≡ y) ⊎ (x ≢ y)
      decide x y = elim (Bool-cases (str_eq x y)) [
        | inl same ↦ inl ((str_eq_iff x y).0 same)
        | inr differ ↦ inr (λ same. false≢true (sym differ ∙ (str_eq_iff x y).1 same))
      ]

  Prefers-accepts_part :
      (before : List String) (part : String) (after : List String)
      → AllPassed before
      → IsWanted part
      → accepts_part env (before ++ part ∷ after) ≡ ok true
  Prefers-accepts_part [] part after passed wanted = accepts_part-wanted part after wanted
  Prefers-accepts_part (first ∷ before) part after passed wanted =
      accepts_part-passed first (before ++ part ∷ after) passed.0
      ∙ Prefers-accepts_part before part after passed.1 wanted

  later-Prefers :
      (first : String) (rest : List String) → IsPassed first → Prefers rest → Prefers (first ∷ rest)
  later-Prefers first rest passed (before, part, after, here, all, wanted) =
      (first ∷ before, part, after, ap (λ l. first ∷ l) here, (passed, all), wanted)

  accepts_part-Prefers : (parts : List String) → accepts_part env parts ≡ ok true → Prefers parts
  unfolding accepts_part
  accepts_part-Prefers [] h = cc
  accepts_part-Prefers (first ∷ rest) h = elim (Result-cases (env.parse_media_type first)) [
    | inr (e, garbled) ↦ absurd (accepts_part-garbled first rest garbled h)
    | inl ((media_type, params), parsed) ↦ elim (parsed-IsWanted first media_type params parsed) [
      | inl wanted ↦ ([], first, rest, refl, tt, wanted)
      | inr passed ↦
          later-Prefers first rest passed
            (accepts_part-Prefers rest (sym (accepts_part-passed first rest passed) ∙ h))
    ]
  ]

  -- `/metrics` is to be answered in the format of Prometheus exactly if the header `Accept` is
  -- there and one of its parts is a media type of Prometheus whose weight is not the text 0, while
  -- all parts before it can be read and are no such parts.
  pub accepts_prometheus_iff :
      (r : Request)
      → (accepts_prometheus env r ≡ ok true)
        ↔ ((r.header "Accept" ≢ "") × Prefers (env.split_commas (r.header "Accept")))
  unfolding accepts_prometheus
  accepts_prometheus_iff r =
      let header = r.header "Accept" in
      let parts = env.split_commas header in
      elim (Bool-cases (str_eq header "")) [
        | inl none_given ↦ (
          λ h. absurd (false≢true (ground arith)),
          λ (given, _). absurd (given ((str_eq_iff header "").0 none_given)),
        )
        | inr given ↦ (
          λ h. (
            λ e. false≢true (sym given ∙ (str_eq_iff header "").1 e),
            accepts_part-Prefers parts (ground arith),
          ),
          λ (_, (before, part, after, here, passed, wanted)).
              rw (given, here) (Prefers-accepts_part before part after passed wanted),
        )
      ]
