-- ===== src/Probe/Kinds.antt =====
-- The probes of the three kinds: internal/probe/tcp.go, tlsport.go and url.go.
use neo_line.Prelude.{
  ℕ, ◌+◌, ◌-◌, ◌*◌, ◌/◌, ◌%◌, ◌^◌, min, Bool, true, false, not, ◌&&◌, ◌||◌, String, ◌==◌, Option,
  none, some, List, [], ◌∷◌, ltb, leb, nat_beq, if◌then◌else◌, any, codes, join_text, inl, inr, map,
}
use neo_line.Monitoring.Types.{CertificateInfo, Monitor}
use neo_line.Probe.Types.{
  Outcome, no_outcome, TransportError, PeerCertificate, Response, Request, Network, classify_stage,
}
use neo_line.Probe.Codes.{status_code_accepted}

abbrev pub nanoseconds_per_day : ℕ
nanoseconds_per_day = 86400 * 1000000000

-- The largest `time.Duration`, at which `time.Until` stops.
abbrev max_duration : ℕ
max_duration = 2 ^ 63 - 1

-- `int32(time.Until(t).Hours() / 24)`: the whole days to a time, towards zero, as 32 bits.
unfoldable pub days_until : ℕ → ℕ → ℕ
days_until now t =
    if leb now t
    then (min (t - now) max_duration / nanoseconds_per_day) % 2 ^ 32
    else (2 ^ 32 - (min (now - t) max_duration / nanoseconds_per_day) % 2 ^ 32) % 2 ^ 32

unfoldable pub certificate_info : ℕ → PeerCertificate → CertificateInfo
unfolding days_until
certificate_info now cert = record {
  subject = cert.subject;
  issuer = cert.issuer;
  dns_names = cert.dns_names;
  serial_number = cert.serial_number;
  not_before = cert.not_before;
  not_after = cert.not_after;
  days_remaining = days_until now cert.not_after;
}

-- `<=` on two int32, given by their bits.
unfoldable pub int32_leb : ℕ → ℕ → Bool
int32_leb a b = leb ((a + 2 ^ 31) % 2 ^ 32) ((b + 2 ^ 31) % 2 ^ 32)

unfoldable pub certificate_status : ℕ → PeerCertificate → Monitor → CertificateInfo → String
unfolding int32_leb
certificate_status now cert m info =
    let warning = (if nat_beq m.warning_days 0 then 21 else m.warning_days) in
    let critical = (if nat_beq m.critical_days 0 then 7 else m.critical_days) in
    if ltb now cert.not_before || ltb cert.not_after now
    then "Down"
    else if int32_leb info.days_remaining critical
    then "Critical"
    else if int32_leb info.days_remaining warning
    then "Warning"
    else "Healthy"

unfoldable pub certificate_down_reason : ℕ → PeerCertificate → String
certificate_down_reason now cert =
    if ltb now cert.not_before
    then "certificate is not yet valid"
    else if ltb cert.not_after now
    then "certificate has expired"
    else "certificate validation failed"

-- A failed dial.
abbrev dial_failed : Monitor → TransportError → Outcome
dial_failed m e = record no_outcome {
  status = "Down";
  stage = (classify_stage e).0;
  err_msg = (classify_stage e).1;
  port = m.port;
}

unfoldable pub probe_tcp : Network → Monitor → Outcome
unfolding classify_stage
probe_tcp net m = elim (net.dial m.host m.port) [
  | inl e ↦ dial_failed m e
  | inr remote ↦ record no_outcome {
    status = "Healthy";
    stage = "none";
    remote_address = remote;
    port = m.port;
  }
]

unfoldable pub server_name : Network → Monitor → String
server_name net m = if m.sni_name == "" && not (net.is_ip m.host) then m.host else m.sni_name

abbrev tls_failed : Monitor → String → String → Outcome
tls_failed m remote message = record no_outcome {
  status = "Down";
  stage = "tls";
  err_msg = message;
  remote_address = remote;
  port = m.port;
}

-- The end of a TLS probe, with the certificates of the peer.
unfoldable pub inspect_certificates : Network → Monitor → String → List PeerCertificate → Outcome
unfolding certificate_info certificate_status certificate_down_reason
inspect_certificates net m remote [] = tls_failed m remote "no peer certificate presented"
inspect_certificates net m remote (leaf ∷ _) =
    let info = certificate_info net.info_at leaf in
    let status = certificate_status net.status_at leaf m info in
    let is_down = status == "Down" in
    record no_outcome {
      status = status;
      stage = if is_down then "tls" else "none";
      err_msg = if is_down then certificate_down_reason net.reason_at leaf else "";
      remote_address = remote;
      port = m.port;
      certificate = some info;
    }

unfoldable pub shake_hands : Network → Monitor → String → Outcome
unfolding server_name inspect_certificates
shake_hands net m remote = elim (net.handshake (server_name net m) (not m.tls_verify)) [
  | inl message ↦ tls_failed m remote message
  | inr certs ↦ inspect_certificates net m remote certs
]

unfoldable pub probe_tls_port : Network → Monitor → Outcome
unfolding classify_stage shake_hands
probe_tls_port net m = elim (net.dial m.host m.port) [
  | inl e ↦ dial_failed m e
  | inr remote ↦ shake_hands net m remote
]

-- `strings.ToLower` on the letters that the words below have.
abbrev lower : ℕ → ℕ
lower c = if leb 65 c && leb c 90 then c + 32 else c

unfoldable pub has_prefix : List ℕ → List ℕ → Bool
has_prefix s [] = true
has_prefix [] (c ∷ p) = false
has_prefix (d ∷ s) (c ∷ p) = nat_beq d c && has_prefix s p

-- `strings.Contains`.
unfoldable pub contains : List ℕ → List ℕ → Bool
unfolding has_prefix
contains [] p = has_prefix [] p
contains (c ∷ s) p = has_prefix (c ∷ s) p || contains s p

abbrev tls_words : List String
tls_words = "tls" ∷ "certificate" ∷ "x509" ∷ "handshake" ∷ []

unfoldable pub classify_http_error : TransportError → Bool → String × String
unfolding classify_stage contains
classify_http_error e is_https =
    let text = map lower (codes e.message) in
    let (stage, message) = classify_stage e in
    if is_https && any (λ w. contains text (codes w)) tls_words
    then ("tls", message)
    else (stage, message)

abbrev http_failed : String → Outcome
http_failed message = record no_outcome { status = "Down"; stage = "http"; err_msg = message }

unfoldable pub first_certificate : ℕ → List PeerCertificate → Option CertificateInfo
unfolding certificate_info
first_certificate now [] = none
first_certificate now (c ∷ _) = some (certificate_info now c)

unfoldable pub answered : Network → Monitor → Response → Outcome
unfolding status_code_accepted first_certificate
answered net m resp =
    let code = resp.status_code % 2 ^ 32 in
    let accepted = status_code_accepted code (codes m.expected_status_codes) in
    record no_outcome {
      status = if accepted then "Healthy" else "Down";
      stage = if accepted then "none" else "http";
      err_msg =
          if accepted
          then ""
          else join_text "unexpected status code " (net.decimal resp.status_code);
      port = m.port;
      http_code = code;
      certificate = first_certificate net.info_at resp.peer_certificates;
    }

unfoldable pub send_request : Network → Monitor → Bool → Request → Outcome
unfolding classify_http_error answered
send_request net m is_https req = elim (net.new_request req.method req.target) [
  | some message ↦ http_failed message
  | none ↦ elim (net.exchange req) [
    | inl e ↦ record no_outcome {
      status = "Down";
      stage = (classify_http_error e is_https).0;
      err_msg = (classify_http_error e is_https).1;
    }
    | inr resp ↦ answered net m resp
  ]
]

unfoldable pub request : Monitor → String → Bool → Request
request m target is_https = record {
  method = if m.method == "" then "GET" else m.method;
  target = target;
  headers = m.headers;
  insecure_skip_verify = is_https && not m.tls_verify;
  server_name = m.sni_name;
}

unfoldable pub probe_url : Network → Monitor → Outcome
unfolding request send_request
probe_url net m =
    let target = net.trim_text m.url in
    let parsed : Outcome = elim (net.parse_url target) [
      | inl message ↦ http_failed (join_text "invalid url: " message)
      | inr scheme ↦ send_request net m (scheme == "https") (request m target (scheme == "https"))
    ] in
    if target == "" then http_failed "monitor has no url configured" else parsed
