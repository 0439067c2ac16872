-- ===== src/Params/Emission.antt =====
-- params/mainnet_emission.go: the issuance of each of the forty quarterly epochs, in base units.
use sudharma.Base.{List, [], map, ℕ, ◌*◌, ◌∷◌}

abbrev pub mainnet_emission_epochs : List ℕ
mainnet_emission_epochs =
    map (λ coins. coins * 100000000)
      (2101200 ∷ 2060400 ∷ 2019600 ∷ 1978800 ∷ 1838550 ∷ 1802850 ∷ 1767150 ∷ 1731450 ∷ 1707225
        ∷ 1674075 ∷ 1640925 ∷ 1607775 ∷ 1575900 ∷ 1545300 ∷ 1514700 ∷ 1484100 ∷ 1444575 ∷ 1416525
        ∷ 1388475 ∷ 1360425 ∷ 1313250 ∷ 1287750 ∷ 1262250 ∷ 1236750 ∷ 1050600 ∷ 1030200 ∷ 1009800
        ∷ 989400 ∷ 919275 ∷ 901425 ∷ 883575 ∷ 865725 ∷ 656625 ∷ 643875 ∷ 631125 ∷ 618375 ∷ 525300
        ∷ 515100 ∷ 504900 ∷ 494700 ∷ [])
