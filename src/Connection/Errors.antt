-- ===== src/Connection/Errors.antt =====
-- The error texts of lib/clusterConnection.js and what they are taken for.
use klew.Base.{
  Bool, List, [], ◌∷◌, Str, codes, is_empty, trim, includes, to_lower_case, any, if◌then◌else◌,
}

abbrev pub auth_error_hints : List Str
auth_error_hints =
    codes "unauthorized"
    ∷ codes "forbidden"
    ∷ codes "expired"
    ∷ codes "token"
    ∷ codes "credentials"
    ∷ codes "authentication"
    ∷ codes "not authorized"
    ∷ codes "exec plugin"
    ∷ codes "get-token"
    ∷ codes "aws-iam-authenticator"
    ∷ codes "aws eks"
    ∷ codes "sso"
    ∷ codes "invalidclienttokenid"
    ∷ codes "no valid credential"
    ∷ codes "accessdenied"
    ∷ codes "authentication failed"
    ∷ []

abbrev pub network_error_hints : List Str
network_error_hints =
    codes "connection refused"
    ∷ codes "connection reset"
    ∷ codes "no such host"
    ∷ codes "dial tcp"
    ∷ codes "i/o timeout"
    ∷ codes "timeout"
    ∷ codes "network is unreachable"
    ∷ codes "tls handshake"
    ∷ []

pub data ErrorKind : Type 0 where
  unknown auth network : ErrorKind

pub record Classified : Type 0 where
  pub kind : ErrorKind
  pub message : Str
  pub guidance : Str

abbrev pub hinted : List Str → Str → Bool
hinted hints message = any (λ hint. includes (to_lower_case message) hint) hints

abbrev pub auth_guidance : Str
auth_guidance =
    codes
      "Cluster credentials may have expired. Refresh AWS or EKS login (for example aws sso login), then reconnect."

abbrev pub network_guidance : Str
network_guidance =
    codes "Check VPN, network access, and that the cluster API endpoint is reachable."

abbrev pub unknown_guidance : Str
unknown_guidance = codes "Check kubeconfig, credentials, and network access."

abbrev pub lost : Str
lost = codes "Cluster connection lost"

-- the part of `classifyConnectionError` below `trim`
abbrev pub classify_message : Str → Classified
classify_message message =
    if is_empty message
    then record { kind = unknown; message = lost; guidance = [] }
    else if hinted auth_error_hints message
    then record { kind = auth; message = message; guidance = auth_guidance }
    else if hinted network_error_hints message
    then record { kind = network; message = message; guidance = network_guidance }
    else record { kind = unknown; message = message; guidance = unknown_guidance }

unfoldable pub classify_connection_error : Str → Classified
classify_connection_error raw = classify_message (trim raw)
