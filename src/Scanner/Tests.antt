-- ===== src/Scanner/Tests.antt =====
-- Tests of the scanner, and an instance of its theorem.
use kepryx.Base.{◌≡◌, ◌^◌, refl, true, false, List, [], ◌∷◌, map, ok, err}
use kepryx.Networks.Texts.{read_network, show_network}
use kepryx.Networks.{num_addresses, subnet_of, same_version}
use kepryx.ScanAuthorization.{authorize_scan_network, outside}
use kepryx.Scanner.{discover}
use kepryx.Scanner.Reading.{DiscoveredHost, is_int, is_open, port_id, read_hosts, refused}
use kepryx.Scanner.Xml.{attribute_of, find, findall_in, findall}
use kepryx.Scanner.Sample.{host_element, down_element, document, config}
use kepryx.Scanner.Hosts.{reported, found_of, ports_of, read_hosts-reported}

integers :
    (is_int "22" ≡ true) × (is_int " -1_0 " ≡ true) × (is_int "1__0" ≡ false) × (is_int "" ≡ false)
unfolding is_int
integers = (refl, refl, refl, refl)

out_of_range :
    discover
      (record config { allowed = "10.1.2.0/24" ∷ []; limit = 2 ^ 30 })
      "10.0.0.0/8"
      []
      (record { commands = []; runs = [] })
    ≡ (err (refused outside), record { commands = []; runs = [] })
unfolding discover authorize_scan_network read_network show_network num_addresses subnet_of
    same_version
out_of_range = refl

what_is_reported : reported (findall "host" document) ≡ ("10.1.2.7", "22" ∷ []) ∷ []
unfolding reported is_open port_id findall attribute_of find findall_in
what_is_reported = refl

read_hosts-reported_example :
    (hosts : List DiscoveredHost) × (read_hosts (down_element ∷ host_element ∷ []) ≡ ok hosts)
    × (map found_of hosts ≡ reported (down_element ∷ host_element ∷ []))
unfolding ports_of is_open port_id is_int attribute_of find findall_in
read_hosts-reported_example =
    read_hosts-reported (down_element ∷ host_element ∷ [])
      (tt, (((λ _. refl), ((λ p. cc), tt)), tt))
