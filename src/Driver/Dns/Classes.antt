-- ===== src/Driver/Dns/Classes.antt =====
-- internal/driver/dns.go and internal/driver/grpc.go: what the engine makes of the codes.
use sendit.Prelude.{ℕ, ◌≡◌, ◌==◌, ◌||◌, if◌then◌else◌, arith}
use sendit.Ratelimit.Classify.{class_none, class_transient, class_permanent, classify_status_code}
use sendit.Driver.Dns.{rcode_to_http}
use sendit.Driver.Grpc.{grpc_status_to_http}

-- The engine takes the answer NOERROR as a success, NXDOMAIN and REFUSED as permanent errors, and every other code as
-- a transient error.
pub classify-rcode_to_http :
    (rcode : ℕ)
    → classify_status_code (rcode_to_http rcode) ≡ (
        if rcode == 0
        then class_none
        else if rcode == 3 || rcode == 5
        then class_permanent
        else class_transient)
unfolding classify_status_code rcode_to_http
classify-rcode_to_http rcode = ground arith

-- The engine takes the status OK of a call as a success; InvalidArgument, NotFound, AlreadyExists, PermissionDenied,
-- OutOfRange and Unauthenticated as permanent errors; and every other status as a transient error.
pub classify-grpc_status_to_http :
    (c : ℕ)
    → classify_status_code (grpc_status_to_http c) ≡ (
        if c == 0
        then class_none
        else if c == 3 || (c == 5 || (c == 6 || (c == 7 || (c == 11 || c == 16))))
        then class_permanent
        else class_transient)
unfolding classify_status_code grpc_status_to_http
classify-grpc_status_to_http c = ground arith
