-- ===== src/Gateway/Startup.antt =====
-- The start of the gateway: the settings of gateway-service/cmd/apiserver/main.go and internal/app/
-- apiserver/config.go, and ensureDemoUniversity of internal/app/apiserver/apiserver.go.
pub mod Demo
use diasoft.Prelude.{
  ℕ, String, List, [], ◌∷◌, Bool, true, false, not, Result, ok, err, ℤ, pos, count, length, select,
  map, split, trim_space, blank, is_empty, ◌==◌, Eq-nat, if◌then◌else◌,
}
use diasoft.Gateway.Model.{Error, message}
use diasoft.Gateway.Accounts.{
  University, Accounts, Registration, Surroundings, Call, ◌>>=◌, pure, of_result,
}
use diasoft.Gateway.Accounts.Demo.{upsert_demo}
use diasoft.Gateway.Auth.{Hasher}
use diasoft.Gateway.SigningKeys
use diasoft.Gateway.SigningKeys.{upsert}
use diasoft.Gateway.Students.Handler.{hour}

-- The university of the demonstration that the settings name.
pub record DemoUniversity : Type 0 where
  pub name : String
  pub vuz_code : String
  pub inn : String
  pub ogrn : String
  pub email : String
  pub password : String
  pub private_key_path : String

-- The settings of Kafka
pub record KafkaConfig : Type 0 where
  pub brokers : List String
  pub raw_tasks_topic : String
  pub processing_results_topic : String
  pub consumer_group : String
  pub client_id : String

pub record Config : Type 0 where
  pub bind_addr : String
  pub log_level : String
  pub public_base_url : String
  pub jwt_secret : String
  pub share_jwt_secret : String
  pub signing_keys_master_key : String
  pub qr_payload_encryption_secret : String
  pub access_token_ttl : ℤ
  pub share_token_ttl : ℤ
  pub bootstrap_admin_email : String
  pub bootstrap_admin_password : String
  pub demo : DemoUniversity
  pub database_url : String
  pub kafka : KafkaConfig

unfoldable pub split_and_trim : String → List String
split_and_trim value = select (λ part. not (is_empty part)) (map trim_space (split b',' value))

-- A variable that is set replaces the setting; one that is not reads as the empty text.
abbrev or_setting : String → String → String
or_setting value setting = if is_empty value then setting else value

unfoldable pub apply_env_overrides : (String → String) → Config → Config
unfolding split_and_trim
apply_env_overrides env c = record c {
  bind_addr = or_setting (env "BIND_ADDR") c.bind_addr;
  log_level = or_setting (env "LOG_LEVEL") c.log_level;
  database_url = or_setting (env "DATABASE_URL") c.database_url;
  jwt_secret = or_setting (env "JWT_SECRET") c.jwt_secret;
  share_jwt_secret = or_setting (env "SHARE_JWT_SECRET") c.share_jwt_secret;
  signing_keys_master_key = or_setting (env "SIGNING_KEYS_MASTER_KEY") c.signing_keys_master_key;
  qr_payload_encryption_secret =
      or_setting (env "QR_PAYLOAD_ENCRYPTION_SECRET") c.qr_payload_encryption_secret;
  public_base_url = or_setting (env "PUBLIC_BASE_URL") c.public_base_url;
  bootstrap_admin_email = or_setting (env "BOOTSTRAP_ADMIN_EMAIL") c.bootstrap_admin_email;
  bootstrap_admin_password = or_setting (env "BOOTSTRAP_ADMIN_PASSWORD") c.bootstrap_admin_password;
  demo = record {
    name = or_setting (env "DEMO_UNIVERSITY_NAME") c.demo.name;
    vuz_code = or_setting (env "DEMO_UNIVERSITY_VUZ_CODE") c.demo.vuz_code;
    inn = or_setting (env "DEMO_UNIVERSITY_INN") c.demo.inn;
    ogrn = or_setting (env "DEMO_UNIVERSITY_OGRN") c.demo.ogrn;
    email = or_setting (env "DEMO_UNIVERSITY_EMAIL") c.demo.email;
    password = or_setting (env "DEMO_UNIVERSITY_PASSWORD") c.demo.password;
    private_key_path = or_setting (env "DEMO_UNIVERSITY_PRIVATE_KEY_PATH") c.demo.private_key_path;
  };
  kafka = record c.kafka {
    brokers =
        if is_empty (env "KAFKA_BROKERS")
        then c.kafka.brokers
        else split_and_trim (env "KAFKA_BROKERS");
    raw_tasks_topic = or_setting (env "KAFKA_RAW_TOPIC") c.kafka.raw_tasks_topic;
    processing_results_topic =
        or_setting (env "KAFKA_RESULTS_TOPIC") c.kafka.processing_results_topic;
    consumer_group = or_setting (env "KAFKA_CONSUMER_GROUP") c.kafka.consumer_group;
  };
}

abbrev values : DemoUniversity → List String
values d = d.name ∷ d.vuz_code ∷ d.inn ∷ d.ogrn ∷ d.email ∷ d.password ∷ []

abbrev pub filled : DemoUniversity → ℕ
filled d = count (λ value. not (blank value)) (values d)

abbrev pub demo_registration : DemoUniversity → Registration
demo_registration d = record {
  name = d.name;
  vuz_code = d.vuz_code;
  inn = d.inn;
  ogrn = d.ogrn;
  email = d.email;
  password = d.password;
}

-- The signing key of the file, if the settings name one; `read_file` is os.ReadFile.
unfoldable pub configure_key :
    SigningKeys.Service
    → Surroundings
    → (String → Result Error String)
    → DemoUniversity
    → University
    → Call Unit
configure_key keys env read_file d u = if blank d.private_key_path then pure tt else (do
  private_key_pem ← of_result (read_file (trim_space d.private_key_path))
  _ ← upsert keys env u.id private_key_pem
  pure tt)

-- An error stands for the one that wraps it.
unfoldable pub ensure_demo_university :
    Hasher
    → SigningKeys.Service
    → Surroundings
    → (String → Result Error String)
    → DemoUniversity
    → Call Unit
unfolding configure_key
ensure_demo_university hasher keys env read_file d =
    if filled d == 0
    then pure tt
    else if not (filled d == 6)
    then of_result (err (message "demo university configuration is incomplete"))
    else (do
      password_hash ← of_result (hasher.hash d.password)
      u ← upsert_demo env (demo_registration d) password_hash "active"
      configure_key keys env read_file d u)
