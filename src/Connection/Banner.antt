-- ===== src/Connection/Banner.antt =====
-- Which message the banner shows for a lost cluster, of `deriveConnectionState`.
use klew.Base.{
  ◌≡◌, refl, sym, ap, ◌∙◌, Bool, true, false, not, ◌&&◌, [], ◌∷◌, Option, none, some, inl, inr,
  Bool-cases, Str, is_empty, trim, trim_idem, ◌or◌, arith,
}
use klew.Connection.{
  Cluster, ClusterStatus, api_error, context_of, is_cluster_disconnected, connection_error_message,
}
use klew.Connection.Errors.{classify_connection_error, classify_message, lost}
use klew.Connection.State.{
  Inputs, derive_connection_state, is_connecting, failure_state, failure_message,
}

-- whether the cluster counts as lost: there is a context, monitoring goes on, nothing is under way
abbrev pub is_lost : Inputs → Bool
is_lost i =
    not (is_empty (context_of i.cluster))
    && not i.monitoring_paused
    && not (is_connecting i)
    && is_cluster_disconnected i.cluster i.cluster_status

classify_message_lem : (m : Str) → (classify_message m).message ≡ (m or lost)
classify_message_lem [] = refl
classify_message_lem (c ∷ m) = ground arith

message-classify_trim : (s : Str) → (classify_connection_error (trim s)).message ≡ (trim s or lost)
unfolding classify_connection_error
message-classify_trim s =
    ap (λ m. (classify_message m).message) (trim_idem s) ∙ classify_message_lem (trim s)

or_of_empty : (s t : Str) → is_empty s ≡ true → (s or t) ≡ t
or_of_empty [] t e = refl
or_of_empty (c ∷ s) t e = absurd (cc)

or_of_not_empty : (s t u : Str) → is_empty s ≡ false → (s or t) ≡ (s or u)
or_of_not_empty [] t u e = absurd (cc)
or_of_not_empty (c ∷ s) t u e = refl

message-api_error :
    (s : Option ClusterStatus)
    → (classify_connection_error (api_error s)).message ≡ (api_error s or lost)
unfolding classify_connection_error trim
message-api_error none = message-classify_trim []
message-api_error (some s) = message-classify_trim s.error

connection_error_message_lem :
    (c : Cluster) (s : Option ClusterStatus)
    → connection_error_message c s ≡ (trim c.sync_error or api_error s or lost)
unfolding connection_error_message trim
connection_error_message_lem c s = elim (Bool-cases (is_empty (trim c.sync_error))) [
  | inl e ↦ elim (Bool-cases (is_empty (api_error s))) [
    | inl f ↦ rw (e, f) (message-classify_trim [] ∙ sym (or_of_empty _ _ e ∙ or_of_empty _ _ f))
    | inr f ↦ rw (e, f) (message-api_error s ∙ sym (or_of_empty _ _ e))
  ]
  | inr e ↦ rw e (message-classify_trim c.sync_error ∙ or_of_not_empty _ _ _ e)
]

message-failure_state : (i : Inputs) → (failure_state i).message ≡ some (failure_message i)
message-failure_state i = ground arith

derive_of_lost : (i : Inputs) → is_lost i ≡ true → derive_connection_state i ≡ failure_state i
unfolding derive_connection_state
derive_of_lost i h = ground arith

-- Of a lost cluster the message is the trimmed error of the last sync, else the trimmed error of the
-- API server, else a text of the program's; dismissed or not, retrying or not.
pub message-derive :
    (i : Inputs)
    → is_lost i ≡ true
    → (derive_connection_state i).message
      ≡ some (trim i.cluster.sync_error or api_error i.cluster_status or lost)
message-derive i h =
    ap (λ s. s.message) (derive_of_lost i h)
    ∙ message-failure_state i
    ∙ ap some (connection_error_message_lem i.cluster i.cluster_status)
