-- ===== src/Mongodb/Configuration/Uri.antt =====
-- What a reader finds in the connection URI.
use mongodb_k8s_operator.Prelude.{ℕ, String, ◌≡◌, refl, ◌∙◌, ap, false, some, arith}
use mongodb_k8s_operator.Text.{append, has, split, first}
use mongodb_k8s_operator.Text.Split.{first-split}
use mongodb_k8s_operator.Core.Error.{ok}
use mongodb_k8s_operator.Core.World.{World}
use mongodb_k8s_operator.Mongodb.Quote.{quote_plus, quote_plus-lacks, has-append}
use mongodb_k8s_operator.Mongodb.Configuration.{
  MongodbConfiguration, userinfo, host_list, options, uri,
}

append-nil : (s : String) → append s "" ≡ s
append-nil String.[] = refl
append-nil (String.◌∷◌ c s) = ap (λ t. String.◌∷◌ c t) (append-nil s)

-- The text before the first separator, where none is in the front.
first-cut :
    (sep : ℕ) (s t : String)
    → has sep s ≡ false
    → first (split sep t) ≡ ""
    → first (split sep (append s t)) ≡ s
first-cut sep s t h e = first-split sep s t h ∙ ap (append s) e ∙ append-nil s

userinfo-lacks_at : (c : MongodbConfiguration) → has b'@' (userinfo c) ≡ false
userinfo-lacks_at c = ground (
  arith,
  has-append b'@' (quote_plus c.username) (append ":" (quote_plus c.password)),
  quote_plus-lacks b'@' c.username refl,
  quote_plus-lacks b'@' c.password refl,
)

-- The URI of a configuration that has a database: up to its first `@` it is the scheme and the
-- credentials, whatever characters these hold, and of the credentials the user's name, quoted, is
-- what stands before the first colon.
pub uri_credentials :
    (w : World) (c : MongodbConfiguration) (database : String)
    → c.database ≡ some database
    → (text : String) × (uri w c ≡ ok text)
      × (first (split b'@' text) ≡ append "mongodb://" (userinfo c))
      × (first (split b':' (userinfo c)) ≡ quote_plus c.username)
unfolding uri
uri_credentials w c database e = (
  append (append "mongodb://" (userinfo c))
      (append "@" (append (host_list w c) (append "/" (options c database)))),
  ground arith,
  first-cut b'@' (append "mongodb://" (userinfo c)) _ (userinfo-lacks_at c) (unfold split in refl),
  first-cut b':' (quote_plus c.username) _ (quote_plus-lacks b':' c.username refl)
      (unfold split in refl),
)
