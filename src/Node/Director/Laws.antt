-- ===== src/Node/Director/Laws.antt =====
-- cmd/beaconnode/proxy_config.go: the headers after the director.
use consensus_proxy.Base.{
  String, false, [], ◌∷◌, str_eq, if◌then◌else◌, ◌≡◌, refl, ap, ◌∙◌, inl, inr, arith, Bool-cases,
  none, some,
}
use consensus_proxy.Http.Headers.{
  Header, lookup, first_value, header_get, header_set, header_del, lookup-insert, lookup-header_del,
}
use consensus_proxy.Node.Director.{
  OutRequest, set_user_agent, set_content, set_proto, delete_rejected, proxy_director,
}

lookup-header_set :
    (j k v : String) (h : Header)
    → lookup j (header_set k v h) ≡ (if str_eq k j then some (v ∷ []) else lookup j h)
unfolding header_set
lookup-header_set j k v h = lookup-insert j k (v ∷ []) h

-- The header `j` is none of those that the last steps change.
delete_rejected_other :
    (j : String) (h : Header)
    → str_eq "Referer" j ≡ false
    → str_eq "X-Real-IP" j ≡ false
    → str_eq "X-Forwarded-For" j ≡ false
    → str_eq "Connection" j ≡ false
    → lookup j (delete_rejected h) ≡ lookup j h
unfolding delete_rejected
delete_rejected_other j h a b c d =
    let h₁ = header_del "X-Forwarded-For" h in
    let h₂ = header_del "X-Real-IP" h₁ in
    ground (
      arith,
      lookup-header_del j "X-Forwarded-For" h,
      lookup-header_del j "X-Real-IP" h₁,
      lookup-header_del j "Referer" h₂,
      lookup-header_del j "Connection" (header_del "Referer" h₂),
    )

delete_rejected_gone :
    (h : Header)
    → (lookup "X-Forwarded-For" (delete_rejected h) ≡ none)
      × (lookup "X-Real-IP" (delete_rejected h) ≡ none)
      × (lookup "Referer" (delete_rejected h) ≡ none)
unfolding delete_rejected
delete_rejected_gone h =
    let h₁ = header_del "X-Forwarded-For" h in
    let h₂ = header_del "X-Real-IP" h₁ in
    let h₃ = header_del "Referer" h₂ in
    let gone : (j : String)
        → lookup j h₃ ≡ none
        → lookup j
            (if str_eq (header_get "Connection" h₃) "close" then header_del "Connection" h₃ else h₃)
          ≡ none =
      λ j e. ground (arith, e, lookup-header_del j "Connection" h₃) in
    (
      gone "X-Forwarded-For" (
          lookup-header_del "X-Forwarded-For" "Referer" h₂
          ∙ lookup-header_del "X-Forwarded-For" "X-Real-IP" h₁
          ∙ lookup-header_del "X-Forwarded-For" "X-Forwarded-For" h),
      gone "X-Real-IP" (
          lookup-header_del "X-Real-IP" "Referer" h₂
          ∙ lookup-header_del "X-Real-IP" "X-Real-IP" h₁),
      gone "Referer" (lookup-header_del "Referer" "Referer" h₂),
    )

set_proto_other :
    (j scheme : String) (h : Header)
    → str_eq "X-Forwarded-Proto" j ≡ false
    → lookup j (set_proto scheme h) ≡ lookup j h
unfolding set_proto
set_proto_other j scheme h a = ground (arith, lookup-header_set j "X-Forwarded-Proto" "https" h)

set_content_lem :
    (j method : String) (h : Header)
    → str_eq "Content-Type" j ≡ false
    → lookup j (set_content method h)
      ≡ (if str_eq "Accept" j then some ("application/json" ∷ []) else lookup j h)
unfolding set_content
set_content_lem j method h a =
    let h' = header_set "Accept" "application/json" h in
    ground (
      arith,
      lookup-header_set j "Accept" "application/json" h,
      lookup-header_set j "Content-Type" "application/json" h',
    )

set_user_agent_lem :
    (user_agent : String) (h : Header)
    → header_get "User-Agent" (set_user_agent user_agent h)
      ≡ (if str_eq (header_get "User-Agent" h) "" then user_agent else header_get "User-Agent" h)
unfolding set_user_agent
set_user_agent_lem user_agent h = elim (Bool-cases (str_eq (header_get "User-Agent" h) "")) [
  | inl missing ↦ rw missing (
      unfold header_get in
      ap first_value (lookup-header_set "User-Agent" "User-Agent" user_agent h))
  | inr given ↦ rw given refl
]

-- Whatever the client and Go's director set, the node gets its own host, JSON as what is accepted,
-- the client's User-Agent or else the configured one, and neither X-Forwarded-For nor X-Real-IP nor
-- Referer from the director.
pub proxy_director_lem :
    (original_director : OutRequest → OutRequest) (host scheme user_agent : String)
    (req : OutRequest)
    → let before = (original_director req).header in
      let out = proxy_director original_director host scheme user_agent req in
      (out.host ≡ host)
      × (header_get "Accept" out.header ≡ "application/json")
      × (header_get "User-Agent" out.header ≡ (
          if str_eq (header_get "User-Agent" before) ""
          then user_agent
          else header_get "User-Agent" before))
      × (lookup "X-Forwarded-For" out.header ≡ none)
      × (lookup "X-Real-IP" out.header ≡ none)
      × (lookup "Referer" out.header ≡ none)
unfolding proxy_director header_get
proxy_director_lem original_director host scheme user_agent req =
    let r = original_director req in
    let h₁ = set_user_agent user_agent r.header in
    let h₂ = set_content r.method h₁ in
    let h₃ = set_proto scheme h₂ in
    (
      refl,
      ap first_value (
          delete_rejected_other "Accept" h₃ refl refl refl refl
          ∙ set_proto_other "Accept" scheme h₂ refl
          ∙ set_content_lem "Accept" r.method h₁ refl),
      ap first_value (
            delete_rejected_other "User-Agent" h₃ refl refl refl refl
            ∙ set_proto_other "User-Agent" scheme h₂ refl
            ∙ set_content_lem "User-Agent" r.method h₁ refl)
          ∙ set_user_agent_lem user_agent r.header,
      (delete_rejected_gone h₃).0,
      (delete_rejected_gone h₃).1,
      (delete_rejected_gone h₃).2,
    )
