-- ===== src/Tests/Certificates.antt =====
-- The wildcard check on concrete names.
use tlsdate.Base.{◌≡◌, ◌↔◌, refl, true, some, codes}
use tlsdate.Wildcard.Matching.{Covers, check_wildcard_match_iff}
use tlsdate.Wildcard.{
  dns_label_count, check_wildcard_match_rfc2595, has_dot, strsep, split_label, strtok, count_labels,
}

-- The name of another domain is accepted: only the second labels are compared.
other_domain :
    check_wildcard_match_rfc2595 (codes "www.example.com") (codes "*.example.org") ≡ some true
unfolding check_wildcard_match_rfc2595 dns_label_count strsep split_label strtok count_labels
    has_dot
other_domain = refl

check_wildcard_match_iff_example :
    (check_wildcard_match_rfc2595 (codes "www.example.com") (codes "*.example.org") ≡ some true)
    ↔ Covers (codes "www.example.com") (codes "*.example.org")
check_wildcard_match_iff_example =
    check_wildcard_match_iff (codes "www.example.com") (codes "*.example.org")
