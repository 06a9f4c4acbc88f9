-- ===== src/Http/Signature/Tests.antt =====
-- Tests of the dynamic signature.
use rust_fox.Prelude.{◌≡◌, refl, []}
use rust_fox.Prelude.Int.{pos}
use rust_fox.Prelude.Result.{err}
use rust_fox.Prelude.Text.{codes}
use rust_fox.Core.Samples.{hashes}
use rust_fox.Core.Model.{hex_lower, sha256, DynamicSignatureConfig}
use rust_fox.Http.Signature.{render_payload, apply_signature, empty_secret}
use rust_fox.Http.Signature.Rendered.{replaced, render_payload-replaced}
use rust_fox.Http.Signature.Signed.{IsSigned, apply_signature-IsSigned}

abbrev config : DynamicSignatureConfig
config = record {
  app_key = codes " k ";
  app_secret = codes "s";
  key_header = codes "X-Key";
  timestamp_header = codes "X-Time";
  sig_header = codes "X-Sig";
  algorithm = sha256;
  encoding = hex_lower;
  payload_template = codes "{{$timestamp}}:{{$key}}{{$nonce}}";
}

-- The value of a key that looks like a placeholder is not looked at again.
rendered :
    render_payload
      (codes "{{$secret}}")
      (codes "s")
      (pos 17)
      (codes "{{$key}}/{{$timestamp}}/{{$x}}")
    ≡ codes "{{$secret}}/17/{{$x}}"
unfolding render_payload
rendered = refl

render_payload-replaced_example :
    render_payload (codes "k") (codes "s") (pos 17) (codes "{{$key}}{{$secret}}")
    ≡ replaced (codes "k") (codes "s") (pos 17) 0 (codes "{{$key}}{{$secret}}")
render_payload-replaced_example =
    render_payload-replaced (codes "k") (codes "s") (pos 17) (codes "{{$key}}{{$secret}}")

apply_signature-IsSigned_example :
    IsSigned hashes (pos 17) [] config (apply_signature hashes (pos 17) [] config)
apply_signature-IsSigned_example = apply_signature-IsSigned hashes (pos 17) [] config

without_secret :
    apply_signature hashes (pos 17) [] (record config { app_secret = codes " " }) ≡ err empty_secret
unfolding apply_signature
without_secret = refl
