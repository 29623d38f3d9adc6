-- ===== src/Executor/DataPlane/Checksum.antt =====
-- The checksum of a restore artifact (executor_restore.go).
use admiral_fleet.Prelude.{
  Text, codes, Bool, true, ◌++◌, eq_text, trim_space, trim_prefix, if◌then◌else◌,
}
use admiral_fleet.Fleet.Effects.{Result, ok, err}

-- `crypto/sha256` in hexadecimal notation, and `gunzipBytes`
pub record Digests : Type 0 where
  pub sha256_hex : Text → Text
  pub gunzip : Text → Result Text Text

abbrev pub scheme : Text
scheme = codes "sha256:"

-- `checksumMatches`
unfoldable pub checksum_matches : Text → Text → Bool
unfolding trim_space trim_prefix eq_text
checksum_matches expected actual =
    eq_text (trim_prefix (trim_space expected) scheme) (trim_prefix (trim_space actual) scheme)

-- `checksumArtifact`
unfoldable pub checksum_artifact : Digests → Result Text Text → Result Text Text
checksum_artifact d (ok bytes) = ok (scheme ++ d.sha256_hex bytes)
checksum_artifact d (err e) = err e

abbrev check_payload : Digests → Text → Result Text Text → Result Text (Bool × Text)
check_payload d expected (err e) = err e
check_payload d expected (ok payload) =
    let sum = scheme ++ d.sha256_hex payload in ok (checksum_matches expected sum, sum)

abbrev unpack : Digests → Result Text Text → Result Text Text
unpack d (ok bytes) = d.gunzip bytes
unpack d (err e) = err e

abbrev check_sum : Digests → Text → Result Text Text → Result Text Text → Result Text (Bool × Text)
check_sum d expected again (err e) = err e
check_sum d expected again (ok actual) =
    if checksum_matches expected actual
    then ok (true, actual)
    else check_payload d expected (unpack d again)

-- `verifyRestoreChecksum`, of what the file holds when it is read, and when it is read again: the
-- sum may be that of the file or that of what it decompresses to.
unfoldable pub verify_restore_checksum :
    Digests → Text → Result Text Text → Result Text Text → Result Text (Bool × Text)
unfolding checksum_matches checksum_artifact
verify_restore_checksum d expected first again =
    check_sum d expected again (checksum_artifact d first)
