-- ===== src/Registry/Keys.antt =====
-- SubKey of crates/libsubby/src/model.rs: a key and its two halves.
use subbier.Base.{◌≡◌, refl, some, List, ℕ}
use subbier.Model.{Provider}
use subbier.Registry.{provider_id, parse_provider, sub_key, key_provider, key_account}

-- A key made of a provider and an account gives both back, whatever the account's text, also where it
-- has a colon of its own.
sub_key-parts :
    (provider : Provider) (account : List ℕ)
    → (key_provider (sub_key provider account) ≡ some provider)
      × (key_account (sub_key provider account) ≡ account)
unfolding sub_key key_provider key_account provider_id parse_provider
sub_key-parts Provider.codex account = (refl, refl)
sub_key-parts Provider.claude account = (refl, refl)
