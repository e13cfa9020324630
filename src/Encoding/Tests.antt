-- ===== src/Encoding/Tests.antt =====
-- Runs of the encoding, and its theorems at concrete bytes.
use qoderwork2api.Common.{◌≡◌, some, arith}
use qoderwork2api.Common.Eq.{codes}
use qoderwork2api.Encoding.{qoder_encode, qoder_decode}
use qoderwork2api.Encoding.RoundTrip.{qoder_decode-qoder_encode}

qoder_decode-qoder_encode_example :
    qoder_decode (qoder_encode (codes "{\"a\":1}")) ≡ some (codes "{\"a\":1}")
qoder_decode-qoder_encode_example = qoder_decode-qoder_encode (codes "{\"a\":1}") (omega arith)
