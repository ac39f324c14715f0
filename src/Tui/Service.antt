-- ===== src/Tui/Service.antt =====
-- crates/tcpvisr-tui/src/service.rs: the names of well-known ports. A text is the list of its
-- characters.
use tcp_visr.Base.{ℕ, ◌==◌, if◌then◌else◌, Option, none, some, List, [], ◌∷◌}

-- The arms of the match: "ftp" for 20 and 21, "ssh" for 22, and so on to "https-alt" for 8443.
abbrev pub services : List (ℕ × List ℕ)
services =
    (20, 102 ∷ 116 ∷ 112 ∷ [])
    ∷ (21, 102 ∷ 116 ∷ 112 ∷ [])
    ∷ (22, 115 ∷ 115 ∷ 104 ∷ [])
    ∷ (23, 116 ∷ 101 ∷ 108 ∷ 110 ∷ 101 ∷ 116 ∷ [])
    ∷ (25, 115 ∷ 109 ∷ 116 ∷ 112 ∷ [])
    ∷ (53, 100 ∷ 111 ∷ 109 ∷ 97 ∷ 105 ∷ 110 ∷ [])
    ∷ (67, 100 ∷ 104 ∷ 99 ∷ 112 ∷ [])
    ∷ (68, 100 ∷ 104 ∷ 99 ∷ 112 ∷ [])
    ∷ (80, 104 ∷ 116 ∷ 116 ∷ 112 ∷ [])
    ∷ (110, 112 ∷ 111 ∷ 112 ∷ 51 ∷ [])
    ∷ (123, 110 ∷ 116 ∷ 112 ∷ [])
    ∷ (143, 105 ∷ 109 ∷ 97 ∷ 112 ∷ [])
    ∷ (179, 98 ∷ 103 ∷ 112 ∷ [])
    ∷ (389, 108 ∷ 100 ∷ 97 ∷ 112 ∷ [])
    ∷ (443, 104 ∷ 116 ∷ 116 ∷ 112 ∷ 115 ∷ [])
    ∷ (445, 109 ∷ 105 ∷ 99 ∷ 114 ∷ 111 ∷ 115 ∷ 111 ∷ 102 ∷ 116 ∷ 45 ∷ 100 ∷ 115 ∷ [])
    ∷ (465, 115 ∷ 109 ∷ 116 ∷ 112 ∷ 115 ∷ [])
    ∷ (587, 115 ∷ 117 ∷ 98 ∷ 109 ∷ 105 ∷ 115 ∷ 115 ∷ 105 ∷ 111 ∷ 110 ∷ [])
    ∷ (631, 105 ∷ 112 ∷ 112 ∷ [])
    ∷ (993, 105 ∷ 109 ∷ 97 ∷ 112 ∷ 115 ∷ [])
    ∷ (995, 112 ∷ 111 ∷ 112 ∷ 51 ∷ 115 ∷ [])
    ∷ (3306, 109 ∷ 121 ∷ 115 ∷ 113 ∷ 108 ∷ [])
    ∷ (3389, 114 ∷ 100 ∷ 112 ∷ [])
    ∷ (5432, 112 ∷ 111 ∷ 115 ∷ 116 ∷ 103 ∷ 114 ∷ 101 ∷ 115 ∷ 113 ∷ 108 ∷ [])
    ∷ (6379, 114 ∷ 101 ∷ 100 ∷ 105 ∷ 115 ∷ [])
    ∷ (8080, 104 ∷ 116 ∷ 116 ∷ 112 ∷ 45 ∷ 97 ∷ 108 ∷ 116 ∷ [])
    ∷ (8443, 104 ∷ 116 ∷ 116 ∷ 112 ∷ 115 ∷ 45 ∷ 97 ∷ 108 ∷ 116 ∷ [])
    ∷ []

unfoldable pub service_in : ℕ → List (ℕ × List ℕ) → Option (List ℕ)
service_in port [] = none
service_in port ((p, name) ∷ more) = if port == p then some name else service_in port more

unfoldable pub service_name : ℕ → Option (List ℕ)
service_name port = service_in port services
