-- ===== src/Sv1/Parse/Total.antt =====
-- The parsers answer on every request.
use solo_pool_rs.Prelude.{◌||◌, not, Option, none, some, if_elim, Option-cases, inl, inr}
use Prim.Native.String.{String}
use solo_pool_rs.Prelude.Bytes.{Bytes, bytes_eq}
use solo_pool_rs.Prelude.Words.{u32_from_hex}
use solo_pool_rs.Error.{Result, NoPanic, NoPanic->>=, ◌>>=◌}
use solo_pool_rs.Template.PrevHash.{Hex}
use solo_pool_rs.Vardiff.{F64}
use solo_pool_rs.Sv1.Json.{Json, text}
use solo_pool_rs.Sv1.Parse.{
  StratumRequest, or_invalid, str_of, parse_line, parse_authorize, parse_submit,
  parse_suggest_difficulty, from_request,
}

or_invalid-NoPanic : {A : Type 0} (o : Option A) (method : String) → NoPanic (or_invalid o method)
or_invalid-NoPanic none method = tt
or_invalid-NoPanic (some a) method = tt

module _ (f : F64) (json : Json f) where
  open json use {Value, as_array, as_f64}

  pub parse_line-NoPanic : (line : Bytes) → NoPanic (parse_line f json line)
  unfolding parse_line
  parse_line-NoPanic line = elim (Option-cases (json.parse_request line)) [
    | inl e ↦ rw (e, parse_line) tt
    | inr (r, e) ↦ rw (e, parse_line) tt
  ]

  parse_authorize-NoPanic : (params : Value) → NoPanic (parse_authorize f json params)
  unfolding parse_authorize
  parse_authorize-NoPanic params =
      NoPanic->>= (or_invalid (as_array params) "mining.authorize") _
        (or_invalid-NoPanic (as_array params) "mining.authorize")
        (λ arr.
          NoPanic->>= (or_invalid (str_of f json arr 0) "mining.authorize") _
            (or_invalid-NoPanic (str_of f json arr 0) "mining.authorize") (λ worker. tt))

  parse_submit-NoPanic : (hex : Hex) (params : Value) → NoPanic (parse_submit f json hex params)
  unfolding parse_submit
  parse_submit-NoPanic hex params = step (as_array params) _ (λ arr.
      step (str_of f json arr 0) _ (λ worker. step (str_of f json arr 1) _ (λ job_id.
        step (str_of f json arr 2) _ (λ en2. step (str_of f json arr 3) _ (λ time.
          step (str_of f json arr 4) _ (λ nonce.
            step (hex.decode en2) _
              (λ e. step (u32_from_hex time) _ (λ t. step (u32_from_hex nonce) _ (λ n. tt)))))))))
    where
      step :
          {A B : Type 0} (o : Option A) (k : A → Result B)
          → ((a : A) → NoPanic (k a))
          → NoPanic (or_invalid o "mining.submit" >>= k)
      step o k h =
          NoPanic->>= (or_invalid o "mining.submit") k (or_invalid-NoPanic o "mining.submit") h

  suggest_difficulty-NoPanic : (params : Value) → NoPanic (parse_suggest_difficulty f json params)
  unfolding parse_suggest_difficulty
  suggest_difficulty-NoPanic params =
      NoPanic->>= _ _ (or_invalid-NoPanic _ "mining.suggest_difficulty")
        (λ d. if_elim NoPanic (not (f.is_finite d) || f.lt d (f.of_u64 1)) _ _ (λ _. tt) (λ _. tt))

  pub from_request-NoPanic :
      (hex : Hex) (req : StratumRequest f json) → NoPanic (from_request f json hex req)
  unfolding from_request
  from_request-NoPanic hex req =
      if_elim NoPanic (bytes_eq req.method (text "mining.subscribe")) _ _ (λ _. tt)
        (λ _.
          if_elim NoPanic (bytes_eq req.method (text "mining.authorize")) _ _
            (λ _. NoPanic->>= _ _ (parse_authorize-NoPanic req.params) (λ _. tt))
            (λ _.
              if_elim NoPanic (bytes_eq req.method (text "mining.submit")) _ _
                (λ _. NoPanic->>= _ _ (parse_submit-NoPanic hex req.params) (λ _. tt))
                (λ _.
                  if_elim NoPanic (bytes_eq req.method (text "mining.configure")) _ _ (λ _. tt)
                    (λ _.
                      if_elim NoPanic (bytes_eq req.method (text "mining.suggest_difficulty")) _ _
                        (λ _. NoPanic->>= _ _ (suggest_difficulty-NoPanic req.params) (λ _. tt))
                        (λ _. tt)))))
