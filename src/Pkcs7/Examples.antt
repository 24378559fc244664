-- ===== src/Pkcs7/Examples.antt =====
-- The padding of a short message.
use adkg.Base.{◌≡◌, refl, [], ◌∷◌}
use adkg.Pkcs7.{pkcs7_pad, ok}

pkcs7_pad_test : pkcs7_pad (7 ∷ 8 ∷ []) 4 ≡ ok (7 ∷ 8 ∷ 2 ∷ 2 ∷ [])
unfolding pkcs7_pad
pkcs7_pad_test = refl
