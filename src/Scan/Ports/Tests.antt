-- ===== src/Scan/Ports/Tests.antt =====
-- Tests of the parser of port lists, and its theorems at concrete texts.
use ctf_proxy_utils.Common.{◌≡◌, refl, false, none, [], ◌∷◌}
use ctf_proxy_utils.Bytes.{codes, index, has_prefix}
use ctf_proxy_utils.Spec.Tests.{bytes_text}
use ctf_proxy_utils.Scan.Ports.{
  insert, sort_ints, add, add_range, split_at, digits, magnitude, atoi, bounds, add_item, add_items,
  parse_ports,
}
use ctf_proxy_utils.Common.Int.{◌+ℤ◌}
use ctf_proxy_utils.Scan.Ports.Members.{IsPortList, parse_ports-IsPortList}
use ctf_proxy_utils.Scan.Ports.Accepts.{is_some, parse_ports_accepts}

program : Unit {0}
unfolding insert sort_ints add add_range split_at digits magnitude atoi bounds add_item add_items
    parse_ports index has_prefix ◌+ℤ◌
program = tt

parse_ports-IsPortList_example : IsPortList bytes_text (codes "81,7-9,8") (7 ∷ 8 ∷ 9 ∷ 81 ∷ [])
unfolding program
parse_ports-IsPortList_example =
    parse_ports-IsPortList bytes_text (codes "81,7-9,8") (7 ∷ 8 ∷ 9 ∷ 81 ∷ []) refl

parse_ports_accepts_example : is_some (parse_ports bytes_text (codes "0-3")) ≡ false
unfolding program
parse_ports_accepts_example = parse_ports_accepts bytes_text (codes "0-3")

no_items : parse_ports bytes_text (codes ",,") ≡ none
unfolding program
no_items = refl
