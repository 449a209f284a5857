-- ===== src/Devices/Policy.antt =====
-- drivers/ssh_compatibility.py: the algorithms that a mode of SSH adds, and who may use it.
use terraformer.Base.{
  ℕ, Bool, true, false, not, ◌&&◌, ◌||◌, Option, none, some, List, [], ◌∷◌, ◌++◌, if◌then◌else◌,
}
use terraformer.Text.{Text, codes}
use terraformer.Errors.Admission.{
  PolicyError, legacy_mode_disabled_by_policy, legacy_group1_disabled_by_policy,
  very_old_mode_disabled_by_policy,
}
use terraformer.Models.{SshCompatibility, modern, cisco_legacy, cisco_legacy_group1, very_old_ssh}

-- The settings that allow legacy modes.
pub record SshSettings : Type 0 where
  pub ssh_legacy_enabled : Bool
  pub ssh_group1_enabled : Bool
  pub ssh_very_old_enabled : Bool

-- What the operator acknowledged.
pub record Acknowledged : Type 0 where
  pub group1_risk : Bool
  pub very_old_risk : Bool

-- Why a mode is refused: the messages of the ConfigurationError.
pub data Reason : Type 0 where
  legacy_disabled group1_disabled group1_unacknowledged : Reason
  very_old_needs_legacy very_old_needs_group1 very_old_disabled very_old_unacknowledged : Reason

unfoldable pub enforce_compatibility_policy :
    SshCompatibility → SshSettings → Acknowledged → Option Reason
enforce_compatibility_policy modern s a = none
enforce_compatibility_policy cisco_legacy s a =
    if not s.ssh_legacy_enabled then some legacy_disabled else none
enforce_compatibility_policy cisco_legacy_group1 s a =
    if not s.ssh_legacy_enabled
    then some legacy_disabled
    else if not s.ssh_group1_enabled
    then some group1_disabled
    else if not a.group1_risk
    then some group1_unacknowledged
    else none
enforce_compatibility_policy very_old_ssh s a =
    if not s.ssh_legacy_enabled
    then some very_old_needs_legacy
    else if not s.ssh_group1_enabled
    then some very_old_needs_group1
    else if not s.ssh_very_old_enabled
    then some very_old_disabled
    else if not a.very_old_risk
    then some very_old_unacknowledged
    else none

unfoldable pub is_very_old : SshCompatibility → Bool
is_very_old very_old_ssh = true
is_very_old modern = false
is_very_old cisco_legacy = false
is_very_old cisco_legacy_group1 = false

-- The error that `admitted_connection` raises in place of a ConfigurationError.
unfoldable pub policy_error : SshCompatibility → SshSettings → Acknowledged → PolicyError
unfolding is_very_old
policy_error mode s a =
    if not s.ssh_legacy_enabled
    then legacy_mode_disabled_by_policy
    else if is_very_old mode
        && (not s.ssh_group1_enabled || not s.ssh_very_old_enabled || not a.very_old_risk)
    then very_old_mode_disabled_by_policy
    else legacy_group1_disabled_by_policy

pub record SshCompatibilityPolicy : Type 0 where
  pub mode : SshCompatibility
  pub version : ℕ
  pub openssh_options : List Text
  pub asyncssh_kex_algs : Option Text
  pub asyncssh_server_host_key_algs : Option Text
  pub asyncssh_encryption_algs : Option Text
  pub asyncssh_mac_algs : Option Text

abbrev pub policy_version : ℕ
policy_version = 3

abbrev pub min_rsa_bits : Text
min_rsa_bits = codes "RequiredRSASize=768"

abbrev pub legacy_kex : Text
legacy_kex = codes "+diffie-hellman-group14-sha1,diffie-hellman-group-exchange-sha1"

abbrev pub group1_kex_suffix : Text
group1_kex_suffix = codes ",diffie-hellman-group1-sha1"

legacy_policy : SshCompatibility → Text → Text → Text → Text → SshCompatibilityPolicy
legacy_policy mode kex host_key cipher mac = record {
  mode = mode;
  version = policy_version;
  openssh_options =
      (codes "KexAlgorithms=" ++ kex)
      ∷ (codes "HostKeyAlgorithms=" ++ host_key)
      ∷ (codes "Ciphers=" ++ cipher)
      ∷ (codes "MACs=" ++ mac)
      ∷ min_rsa_bits
      ∷ [];
  asyncssh_kex_algs = some kex;
  asyncssh_server_host_key_algs = some host_key;
  asyncssh_encryption_algs = some cipher;
  asyncssh_mac_algs = some mac;
}

unfoldable pub compatibility_policy : SshCompatibility → SshCompatibilityPolicy
unfolding legacy_policy
compatibility_policy modern = record {
  mode = modern;
  version = policy_version;
  openssh_options = [];
  asyncssh_kex_algs = none;
  asyncssh_server_host_key_algs = none;
  asyncssh_encryption_algs = none;
  asyncssh_mac_algs = none;
}
compatibility_policy cisco_legacy =
    legacy_policy cisco_legacy legacy_kex (codes "+ssh-rsa")
      (codes "+aes256-cbc,aes192-cbc,aes128-cbc") (codes "+hmac-sha1,hmac-sha1-96")
compatibility_policy cisco_legacy_group1 =
    legacy_policy cisco_legacy_group1 (legacy_kex ++ group1_kex_suffix) (codes "+ssh-rsa")
      (codes "+aes256-cbc,aes192-cbc,aes128-cbc") (codes "+hmac-sha1,hmac-sha1-96")
compatibility_policy very_old_ssh =
    legacy_policy very_old_ssh (legacy_kex ++ group1_kex_suffix)
      (codes "+ssh-rsa" ++ codes ",ssh-dss")
      (codes "+aes256-cbc,aes192-cbc,aes128-cbc" ++ codes ",3des-cbc")
      (codes "+hmac-sha1,hmac-sha1-96" ++ codes ",hmac-md5,hmac-md5-96")
