-- ===== src/Probe/Types.antt =====
-- The outcome of an attempt, and what the packages net, crypto/tls, net/url and net/http give a probe,
-- which are parameters: a dial, a handshake, and a request. Times are nanoseconds since 1970.
use neo_line.Prelude.{ℕ, Bool, String, Option, none, List, if◌then◌else◌, ◌⊎◌}
use neo_line.Monitoring.Types.{CertificateInfo}

pub record Outcome : Type 0 where
  pub status : String
  pub stage : String
  pub err_msg : String
  pub remote_address : String
  pub port : ℕ
  pub http_code : ℕ
  pub certificate : Option CertificateInfo

-- The zero value of the struct.
abbrev pub no_outcome : Outcome
no_outcome = record {
  status = "";
  stage = "";
  err_msg = "";
  remote_address = "";
  port = 0;
  http_code = 0;
  certificate = none;
}

-- An error of the transport: what `errors.As` and `errors.Is` find in it, and its text.
pub record TransportError : Type 0 where
  pub is_dns_error : Bool
  pub is_deadline_exceeded : Bool
  pub is_timeout : Bool
  pub message : String

-- The fields of an `x509.Certificate` that are read, the names in their printed form.
pub record PeerCertificate : Type 0 where
  pub subject : String
  pub issuer : String
  pub dns_names : List String
  pub serial_number : String
  pub not_before : ℕ
  pub not_after : ℕ

pub record Response : Type 0 where
  pub status_code : ℕ
  pub peer_certificates : List PeerCertificate

-- A request as `probeURL` builds it.
pub record Request : Type 0 where
  pub method : String
  pub target : String
  pub headers : List (String × String)
  pub insecure_skip_verify : Bool
  pub server_name : String

-- What one attempt meets, the clock at its readings included.
pub record Network : Type 0 where
  -- `DialContext` to a host and a port, which gives the remote address
  pub dial : String → ℕ → TransportError ⊎ String
  -- `HandshakeContext` with a server name and `InsecureSkipVerify`, which gives the peer's certificates
  pub handshake : String → Bool → String ⊎ List PeerCertificate
  -- whether `net.ParseIP` reads the text, without the space around it
  pub is_ip : String → Bool
  -- `url.Parse`, which gives the scheme in lower case
  pub parse_url : String → String ⊎ String
  -- `http.NewRequestWithContext` of a method and a target, which may refuse them
  pub new_request : String → String → Option String
  pub exchange : Request → TransportError ⊎ Response
  -- `strings.TrimSpace`, and `%d` of package fmt
  pub trim_text : String → String
  pub decimal : ℕ → String
  -- the clock as `certificateInfo`, `certificateStatus` and `certificateDownReason` read it
  pub info_at : ℕ
  pub status_at : ℕ
  pub reason_at : ℕ

unfoldable pub classify_stage : TransportError → String × String
classify_stage e =
    if e.is_dns_error
    then ("dns", e.message)
    else if e.is_deadline_exceeded
    then ("timeout", e.message)
    else if e.is_timeout
    then ("timeout", e.message)
    else ("tcp", e.message)
