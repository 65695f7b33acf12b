-- ===== src/Tls/Pem/Distinct.antt =====
-- `_load_distinct_certificates` loads each block of the file once.
use faststream_mq.Base.{Bool, true, not, ◌&&◌, List, [], ◌∷◌, Bytes, contains_text}

-- no block stands twice
abbrev pub all_different : List Bytes → Bool
all_different [] = true
all_different (b ∷ bs) = not (contains_text bs b) && all_different bs
