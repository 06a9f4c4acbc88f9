-- ===== src/Sign/Digest/Answer/Tests.antt =====
-- Tests of the answer to a challenge.
use rust_fox.Prelude.{◌≡◌, refl, true, [], ◌∷◌, none}
use rust_fox.Prelude.Result.{err}
use rust_fox.Prelude.Text.{codes}
use rust_fox.Core.Samples.{hashes}
use rust_fox.Sign.{unsupported_qop, unsupported_algorithm}
use rust_fox.Sign.Digest.{DigestChallenge}
use rust_fox.Sign.Digest.Answer.{DigestParams, hex_places, final_text, digest_authorization}

abbrev challenge : DigestChallenge
challenge = record {
  realm = codes "a b";
  nonce = codes "n";
  opaque = none;
  qop = codes "auth" ∷ [];
  algorithm = codes "md5-sess";
  userhash = true;
}

abbrev params : DigestParams
params = record {
  username = codes "Mufasa";
  password = codes "Circle";
  method = codes "get";
  uri = codes "/dir?x=1";
  challenge = challenge;
  nc = 1;
  cnonce = codes "c0";
}

counted : hex_places 8 0x1a2b ≡ codes "00001a2b"
unfolding hex_places
counted = refl

without_opaque :
    final_text challenge (codes "Digest cnonce=\"c\", opaque=, qop=auth")
    ≡ codes "Digest cnonce=\"c\", qop=auth"
unfolding final_text
without_opaque = refl

only_integrity :
    digest_authorization hashes
      (record params { challenge = record challenge { qop = codes "auth-int" ∷ [] } })
    ≡ err unsupported_qop
unfolding digest_authorization
only_integrity = refl

unknown_algorithm :
    digest_authorization hashes
      (record params { challenge = record challenge { algorithm = codes "SHA-1" } })
    ≡ err (unsupported_algorithm (codes "SHA-1"))
unfolding digest_authorization
unknown_algorithm = refl
