-- ===== src/Http/Reasons.antt =====
-- The reasons that `reason_for_status` of src/http/response.cpp gives, with the texts of
-- p2engine/http/atom.hpp.
use p2engine.Prelude.{List, [], if◌then◌else◌, ℕ, ◌==◌, ◌∷◌}

-- The cases of the switch, with their texts as bytes.
abbrev pub reasons : List (ℕ × List ℕ)
reasons =
    (0, [])
    ∷ (100, 67 ∷ 111 ∷ 110 ∷ 116 ∷ 105 ∷ 110 ∷ 117 ∷ 101 ∷ [])
    ∷ (
      101,
      83 ∷ 119 ∷ 105 ∷ 116 ∷ 99 ∷ 104 ∷ 105 ∷ 110 ∷ 103 ∷ 32 ∷ 80 ∷ 114 ∷ 111 ∷ 116 ∷ 111 ∷ 99 ∷ 111
          ∷ 108 ∷ 115 ∷ [],
    )
    ∷ (200, 79 ∷ 75 ∷ [])
    ∷ (201, 67 ∷ 114 ∷ 101 ∷ 97 ∷ 116 ∷ 101 ∷ 100 ∷ [])
    ∷ (202, 65 ∷ 99 ∷ 99 ∷ 101 ∷ 112 ∷ 116 ∷ 101 ∷ 100 ∷ [])
    ∷ (
      203,
      78 ∷ 111 ∷ 110 ∷ 45 ∷ 65 ∷ 117 ∷ 116 ∷ 104 ∷ 111 ∷ 114 ∷ 105 ∷ 116 ∷ 97 ∷ 116 ∷ 105 ∷ 118
          ∷ 101 ∷ 32 ∷ 73 ∷ 110 ∷ 102 ∷ 111 ∷ 114 ∷ 109 ∷ 97 ∷ 116 ∷ 105 ∷ 111 ∷ 110 ∷ [],
    )
    ∷ (204, 78 ∷ 111 ∷ 32 ∷ 67 ∷ 111 ∷ 110 ∷ 116 ∷ 101 ∷ 110 ∷ 116 ∷ [])
    ∷ (205, 82 ∷ 101 ∷ 115 ∷ 101 ∷ 116 ∷ 32 ∷ 67 ∷ 111 ∷ 110 ∷ 116 ∷ 101 ∷ 110 ∷ 116 ∷ [])
    ∷ (206, 80 ∷ 97 ∷ 114 ∷ 116 ∷ 105 ∷ 97 ∷ 108 ∷ 32 ∷ 67 ∷ 111 ∷ 110 ∷ 116 ∷ 101 ∷ 110 ∷ 116 ∷ [])
    ∷ (
      300,
      77 ∷ 117 ∷ 108 ∷ 116 ∷ 105 ∷ 112 ∷ 108 ∷ 101 ∷ 32 ∷ 67 ∷ 104 ∷ 111 ∷ 105 ∷ 99 ∷ 101 ∷ 115
          ∷ [],
    )
    ∷ (
      301,
      77 ∷ 111 ∷ 118 ∷ 101 ∷ 100 ∷ 32 ∷ 80 ∷ 101 ∷ 114 ∷ 109 ∷ 97 ∷ 110 ∷ 101 ∷ 110 ∷ 116 ∷ 108
          ∷ 121 ∷ [],
    )
    ∷ (302, 70 ∷ 111 ∷ 117 ∷ 110 ∷ 100 ∷ [])
    ∷ (303, 83 ∷ 101 ∷ 101 ∷ 32 ∷ 79 ∷ 116 ∷ 104 ∷ 101 ∷ 114 ∷ [])
    ∷ (304, 78 ∷ 111 ∷ 116 ∷ 32 ∷ 77 ∷ 111 ∷ 100 ∷ 105 ∷ 102 ∷ 105 ∷ 101 ∷ 100 ∷ [])
    ∷ (305, 85 ∷ 115 ∷ 101 ∷ 32 ∷ 80 ∷ 114 ∷ 111 ∷ 120 ∷ 121 ∷ [])
    ∷ (
      307,
      84 ∷ 101 ∷ 109 ∷ 112 ∷ 111 ∷ 114 ∷ 97 ∷ 114 ∷ 121 ∷ 32 ∷ 82 ∷ 101 ∷ 100 ∷ 105 ∷ 114 ∷ 101 ∷ 99
          ∷ 116 ∷ [],
    )
    ∷ (400, 66 ∷ 97 ∷ 100 ∷ 32 ∷ 82 ∷ 101 ∷ 113 ∷ 117 ∷ 101 ∷ 115 ∷ 116 ∷ [])
    ∷ (
      402,
      80 ∷ 97 ∷ 121 ∷ 109 ∷ 101 ∷ 110 ∷ 116 ∷ 32 ∷ 82 ∷ 101 ∷ 113 ∷ 117 ∷ 105 ∷ 114 ∷ 101 ∷ 100
          ∷ [],
    )
    ∷ (403, 70 ∷ 111 ∷ 114 ∷ 98 ∷ 105 ∷ 100 ∷ 100 ∷ 101 ∷ 110 ∷ [])
    ∷ (404, 78 ∷ 111 ∷ 116 ∷ 32 ∷ 70 ∷ 111 ∷ 117 ∷ 110 ∷ 100 ∷ [])
    ∷ (
      405,
      77 ∷ 101 ∷ 116 ∷ 104 ∷ 111 ∷ 100 ∷ 32 ∷ 78 ∷ 111 ∷ 116 ∷ 32 ∷ 65 ∷ 108 ∷ 108 ∷ 111 ∷ 119 ∷ 101
          ∷ 100 ∷ [],
    )
    ∷ (406, 78 ∷ 111 ∷ 116 ∷ 32 ∷ 65 ∷ 99 ∷ 99 ∷ 101 ∷ 112 ∷ 116 ∷ 97 ∷ 98 ∷ 108 ∷ 101 ∷ [])
    ∷ (
      407,
      80 ∷ 114 ∷ 111 ∷ 120 ∷ 121 ∷ 32 ∷ 65 ∷ 117 ∷ 116 ∷ 104 ∷ 101 ∷ 110 ∷ 116 ∷ 105 ∷ 99 ∷ 97 ∷ 116
          ∷ 105 ∷ 111 ∷ 110 ∷ 32 ∷ 82 ∷ 101 ∷ 113 ∷ 117 ∷ 105 ∷ 114 ∷ 101 ∷ 100 ∷ [],
    )
    ∷ (
      408,
      82 ∷ 101 ∷ 113 ∷ 117 ∷ 101 ∷ 115 ∷ 116 ∷ 32 ∷ 84 ∷ 105 ∷ 109 ∷ 101 ∷ 45 ∷ 111 ∷ 117 ∷ 116
          ∷ [],
    )
    ∷ (409, 67 ∷ 111 ∷ 110 ∷ 102 ∷ 108 ∷ 105 ∷ 99 ∷ 116 ∷ [])
    ∷ (410, 71 ∷ 111 ∷ 110 ∷ 101 ∷ [])
    ∷ (
      411,
      76 ∷ 101 ∷ 110 ∷ 103 ∷ 116 ∷ 104 ∷ 32 ∷ 82 ∷ 101 ∷ 113 ∷ 117 ∷ 105 ∷ 114 ∷ 101 ∷ 100 ∷ [],
    )
    ∷ (
      412,
      80 ∷ 114 ∷ 101 ∷ 99 ∷ 111 ∷ 110 ∷ 100 ∷ 105 ∷ 116 ∷ 105 ∷ 111 ∷ 110 ∷ 32 ∷ 70 ∷ 97 ∷ 105 ∷ 108
          ∷ 101 ∷ 100 ∷ [],
    )
    ∷ (
      413,
      82 ∷ 101 ∷ 113 ∷ 117 ∷ 101 ∷ 115 ∷ 116 ∷ 32 ∷ 69 ∷ 110 ∷ 116 ∷ 105 ∷ 116 ∷ 121 ∷ 32 ∷ 84 ∷ 111
          ∷ 111 ∷ 32 ∷ 76 ∷ 97 ∷ 114 ∷ 103 ∷ 101 ∷ [],
    )
    ∷ (
      414,
      82 ∷ 101 ∷ 113 ∷ 117 ∷ 101 ∷ 115 ∷ 116 ∷ 45 ∷ 85 ∷ 82 ∷ 73 ∷ 32 ∷ 84 ∷ 111 ∷ 111 ∷ 32 ∷ 76
          ∷ 97 ∷ 114 ∷ 103 ∷ 101 ∷ [],
    )
    ∷ (
      415,
      85 ∷ 110 ∷ 115 ∷ 117 ∷ 112 ∷ 112 ∷ 111 ∷ 114 ∷ 116 ∷ 101 ∷ 100 ∷ 32 ∷ 77 ∷ 101 ∷ 100 ∷ 105
          ∷ 97 ∷ 32 ∷ 84 ∷ 121 ∷ 112 ∷ 101 ∷ [],
    )
    ∷ (
      416,
      82 ∷ 101 ∷ 113 ∷ 117 ∷ 101 ∷ 115 ∷ 116 ∷ 101 ∷ 100 ∷ 32 ∷ 82 ∷ 97 ∷ 110 ∷ 103 ∷ 101 ∷ 32 ∷ 78
          ∷ 111 ∷ 116 ∷ 32 ∷ 83 ∷ 97 ∷ 116 ∷ 105 ∷ 115 ∷ 102 ∷ 105 ∷ 97 ∷ 98 ∷ 108 ∷ 101 ∷ [],
    )
    ∷ (
      417,
      69 ∷ 120 ∷ 112 ∷ 101 ∷ 99 ∷ 116 ∷ 97 ∷ 116 ∷ 105 ∷ 111 ∷ 110 ∷ 32 ∷ 70 ∷ 97 ∷ 105 ∷ 108 ∷ 101
          ∷ 100 ∷ [],
    )
    ∷ (
      500,
      73 ∷ 110 ∷ 116 ∷ 101 ∷ 114 ∷ 110 ∷ 97 ∷ 108 ∷ 32 ∷ 83 ∷ 101 ∷ 114 ∷ 118 ∷ 101 ∷ 114 ∷ 32 ∷ 69
          ∷ 114 ∷ 114 ∷ 111 ∷ 114 ∷ [],
    )
    ∷ (
      501,
      78 ∷ 111 ∷ 116 ∷ 32 ∷ 73 ∷ 109 ∷ 112 ∷ 108 ∷ 101 ∷ 109 ∷ 101 ∷ 110 ∷ 116 ∷ 101 ∷ 100 ∷ [],
    )
    ∷ (502, 66 ∷ 97 ∷ 100 ∷ 32 ∷ 71 ∷ 97 ∷ 116 ∷ 101 ∷ 119 ∷ 97 ∷ 121 ∷ [])
    ∷ (
      503,
      83 ∷ 101 ∷ 114 ∷ 118 ∷ 105 ∷ 99 ∷ 101 ∷ 32 ∷ 85 ∷ 110 ∷ 97 ∷ 118 ∷ 97 ∷ 105 ∷ 108 ∷ 97 ∷ 98
          ∷ 108 ∷ 101 ∷ [],
    )
    ∷ (
      504,
      71 ∷ 97 ∷ 116 ∷ 101 ∷ 119 ∷ 97 ∷ 121 ∷ 32 ∷ 84 ∷ 105 ∷ 109 ∷ 101 ∷ 45 ∷ 111 ∷ 117 ∷ 116 ∷ [],
    )
    ∷ (
      505,
      72 ∷ 84 ∷ 84 ∷ 80 ∷ 32 ∷ 86 ∷ 101 ∷ 114 ∷ 115 ∷ 105 ∷ 111 ∷ 110 ∷ 32 ∷ 110 ∷ 111 ∷ 116 ∷ 32
          ∷ 115 ∷ 117 ∷ 112 ∷ 112 ∷ 111 ∷ 114 ∷ 116 ∷ 101 ∷ 100 ∷ [],
    )
    ∷ []

abbrev pub reason_in : List (ℕ × List ℕ) → ℕ → List ℕ
reason_in [] s = []
reason_in ((n, text) ∷ rest) s = if s == n then text else reason_in rest s

unfoldable pub reason_for_status : ℕ → List ℕ
reason_for_status s = reason_in reasons s
