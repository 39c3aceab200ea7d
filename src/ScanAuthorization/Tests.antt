-- ===== src/ScanAuthorization/Tests.antt =====
-- Tests and instances of the authorization theorems, over a few known texts.
use kepryx.Base.{◌^◌, ◌≡◌, refl, [], ◌∷◌, ok, err}
use kepryx.Networks.{num_addresses, subnet_of, same_version, contains}
use kepryx.Networks.Texts.{sample, read_network, show_network, read_address, show_address}
use kepryx.ScanAuthorization.{
  authorize_scan_network, authorize_scan_host, outside, disabled, too_many_hosts,
}
use kepryx.ScanAuthorization.Boundary.{
  NetworkApproved, HostApproved, authorize_scan_network_within, authorize_scan_host_within,
}

approved : authorize_scan_network sample ("10.0.0.0/8" ∷ []) 4096 "10.1.2.9/24" ≡ ok "10.1.2.0/24"
unfolding authorize_scan_network read_network show_network num_addresses subnet_of same_version
approved = refl

refused :
    (authorize_scan_network sample ("10.1.2.0/24" ∷ []) (2 ^ 30) "10.0.0.0/8" ≡ err outside)
    × (authorize_scan_network sample ("10.0.0.0/8" ∷ []) 4096 "10.0.0.0/8" ≡ err too_many_hosts)
    × (authorize_scan_network sample [] 4096 "10.1.2.0/24" ≡ err disabled)
unfolding authorize_scan_network read_network show_network num_addresses subnet_of same_version
refused = (refl, refl, refl)

host_approved : authorize_scan_host sample ("10.0.0.0/8" ∷ []) "10.1.2.7" ≡ ok "10.1.2.7"
unfolding authorize_scan_host read_network read_address show_address num_addresses same_version
    contains
host_approved = refl

authorize_scan_network_within_example :
    NetworkApproved sample ("10.0.0.0/8" ∷ []) 4096 "10.1.2.9/24" "10.1.2.0/24"
authorize_scan_network_within_example =
    authorize_scan_network_within sample ("10.0.0.0/8" ∷ []) 4096 "10.1.2.9/24" "10.1.2.0/24"
      approved

authorize_scan_host_within_example : HostApproved sample ("10.0.0.0/8" ∷ []) "10.1.2.7" "10.1.2.7"
authorize_scan_host_within_example =
    authorize_scan_host_within sample ("10.0.0.0/8" ∷ []) "10.1.2.7" "10.1.2.7" host_approved
