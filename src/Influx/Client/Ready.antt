-- ===== src/Influx/Client/Ready.antt =====
-- crates/huginn-influx/src/writer.rs: when `InfluxWriter::new` succeeds, and with what.
use huginn_io.Core.Config.Secrets.Closed.{Holds, read_token_iff}
use huginn_io.Core.Config.Secrets.{read_token}
use huginn_io.Core.Config.{InfluxConfig}
use huginn_io.Core.Error.{Foreign, value, failed, ok, Result-cases}
use huginn_io.Influx.Client.{InfluxWriter, build_client, new_writer, write_url_of}
use huginn_io.Prelude.{◌≡◌, ◌↔◌, subst, inl, inr, arith, Text}

-- The token file holds the token, the client could be built, and the URL is that of the
-- configuration.
pub record IsWriter (files : Text → Foreign Text) (client : Foreign (Unit {0})) (c : InfluxConfig)
    (w : InfluxWriter) : Type 0 where
  pub token : Holds (files c.token_file) w.token
  pub built : client ≡ value tt
  pub write_url : w.write_url ≡ write_url_of c

module _ (files : Text → Foreign Text) (c : InfluxConfig) where
  pub new_writer_iff :
      (client : Foreign (Unit {0})) (w : InfluxWriter)
      → (new_writer files client c ≡ ok w) ↔ IsWriter files client c w
  unfolding new_writer build_client
  new_writer_iff (value tt) w = elim (Result-cases (read_token files c)) [
    | inl (why, e) ↦ (
      λ h. absurd (ground (arith, e)),
      λ r. absurd (ground (arith, e, (read_token_iff files c w.token).1 r.token)),
    )
    | inr (t, e) ↦ (
      λ h. record {
        token =
            subst (Holds (files c.token_file)) (ground (arith, e)) ((read_token_iff files c t).0 e);
        built = ground arith;
        write_url = ground (arith, e);
      },
      λ r. ground (arith, e, (read_token_iff files c w.token).1 r.token, r.write_url),
    )
  ]
  new_writer_iff (failed why) w = elim (Result-cases (read_token files c)) [
    | inl (why, e) ↦ (λ h. absurd (ground (arith, e)), λ r. absurd (ground (arith, r.built)))
    | inr (t, e) ↦ (λ h. absurd (ground (arith, e)), λ r. absurd (ground (arith, r.built)))
  ]
