-- ===== src/Handlers/Laws.antt =====
-- cmd/handlers: what the CORS wrapper and the health endpoint answer.
use consensus_proxy.Base.{
  not_both, String, Bool, true, false, List, [], ◌∷◌, str_eq, eq_iff, if◌then◌else◌, ◌≡◌, refl, sym,
  ap, ◌∙◌, ◌≢◌, ◌⊎◌, inl, inr, Bool-cases, some,
}
use consensus_proxy.Http.{Writer}
use consensus_proxy.Http.Headers.{
  Header, header_get, header_set, lookup, lookup-insert, first_value,
}
use consensus_proxy.Handlers.{Handler, cors_headers, set_all, cors_handler}

pub header_get-header_set :
    (j k v : String) (h : Header)
    → header_get j (header_set k v h) ≡ (if str_eq k j then v else header_get j h)
unfolding header_get header_set
header_get-header_set j k v h = rw (lookup-insert j k (v ∷ []) h) (pulled (str_eq k j))
  where
    pulled :
        (b : Bool)
        → first_value (if b then some (v ∷ []) else lookup j h)
          ≡ (if b then v else first_value (lookup j h))
    pulled true = refl
    pulled false = refl

-- The last value that is given to a name, or what was there.
abbrev pub last_given : String → List (String × String) → String → String
last_given j [] v = v
last_given j ((k, u) ∷ kvs) v = last_given j kvs (if str_eq k j then u else v)

header_get-set_all :
    (j : String) (kvs : List (String × String)) (h : Header)
    → header_get j (set_all kvs h) ≡ last_given j kvs (header_get j h)
unfolding set_all
header_get-set_all j [] h = refl
header_get-set_all j ((k, v) ∷ kvs) h =
    header_get-set_all j kvs (header_set k v h)
    ∙ ap (last_given j kvs) (header_get-header_set j k v h)

-- Every request is handled with the security and the CORS headers set, whatever was there before,
-- and no other header changed. A preflight request ends with them: nothing is written and the
-- wrapped handler's state stays as it is. Any other request goes to the wrapped handler.
pub cors_handler_lem :
    {S : Type 0} (next : Handler S) (method : String) (s : S) (w : Writer)
    → (w' : Writer) × (((method ≡ "OPTIONS")
          × (cors_handler next method s w ≡ (let out : S × Writer = (s, w') in out)))
        ⊎ ((method ≢ "OPTIONS") × (cors_handler next method s w ≡ next s w')))
      × (w'.status ≡ w.status)
      × (w'.body ≡ w.body)
      × ((j : String) → header_get j w'.header ≡ last_given j cors_headers (header_get j w.header))
unfolding cors_handler
cors_handler_lem next method s w = (
  record w { header = set_all cors_headers w.header },
  elim (Bool-cases (str_eq method "OPTIONS")) [
    | inl e ↦ inl ((eq_iff method "OPTIONS").0 e, rw e refl)
    | inr e ↦ inr ((λ f. not_both (sym ((eq_iff method "OPTIONS").1 f) ∙ e)), rw e refl)
  ],
  refl,
  refl,
  λ j. header_get-set_all j cors_headers w.header,
)

-- The wrapped handler's state afterwards is what it was, or what the wrapped handler makes of it.
pub cors_handler-frame :
    {S : Type 0} (next : Handler S) (method : String) (s : S) (w : Writer)
    → ((cors_handler next method s w).0 ≡ s)
      ⊎ ((w' : Writer) × ((cors_handler next method s w).0 ≡ (next s w').0))
cors_handler-frame next method s w =
    let (w', cases, _, _, _) = cors_handler_lem next method s w in
    elim cases [
      | inl (_, e) ↦ inl (ap (λ out. out.0) e)
      | inr (_, e) ↦ inr (w', ap (λ out. out.0) e)
    ]
