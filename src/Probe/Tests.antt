-- ===== src/Probe/Tests.antt =====
-- Tests of the reading of a response, and its theorem at concrete reads.
use ctf_proxy_utils.Common.{◌≡◌, refl, some, List, [], ◌∷◌, arith}
use ctf_proxy_utils.Bytes.{codes, contains, index, has_prefix}
use ctf_proxy_utils.Spec.Tests.{bytes_text}
use ctf_proxy_utils.Probe.{
  Read, goes_on, ended, no_match, Found, received, decode_health_bytes, match_health_response,
  read_response, read_response-Found,
}

program : Unit {0}
unfolding decode_health_bytes match_health_response read_response contains index has_prefix
program = tt

-- The pattern arrives in two reads.
abbrev reads : List Read
reads = (codes "+PO", goes_on) ∷ (codes "NG", ended) ∷ []

read_response-Found_example : Found bytes_text "text" (codes "PONG") (received reads)
unfolding program
read_response-Found_example =
    read_response-Found bytes_text "text" (codes "PONG") reads (omega arith, (omega arith, tt)) refl

without_match : read_response bytes_text "text" (codes "PING") [] reads ≡ no_match
unfolding program
without_match = refl

payload_text : decode_health_bytes bytes_text "text" (codes "hi") ≡ some (codes "hi")
unfolding program
payload_text = refl
