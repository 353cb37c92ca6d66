-- ===== src/Directory/Lookup.antt =====
-- `findUserByUsername` and `verifyCredentials` of ldap.service.ts, over the client of the package
-- ldapts.
use munichat.Prelude.{Bool, false, Option, none, some, List, [], ◌∷◌, ◌++◌, if◌then◌else◌, is_empty}
use munichat.Text.{Text, lit}
use munichat.Server.{Result, ok, thrown, rejected}
use munichat.Directory.Names.{department_from_dn, escape_filter_value}

-- The value of an attribute of an entry, as the client gives it.
pub data AttributeValue : Type 0 where
  undefined : AttributeValue
  one : Text → AttributeValue
  many : List Text → AttributeValue

pub record Entry : Type 0 where
  pub dn : Text
  pub attribute : Text → AttributeValue

-- The client: whether a bind is accepted, the entries of a search in a subtree (`none`: it throws)
-- and whether `unbind` returns.
pub record Client : Type 0 where
  pub bind : Text → Text → Bool
  pub search : Text → Text → Option (List Entry)
  pub unbind : Bool

pub record LdapConfig : Type 0 where
  pub bind_dn : Text
  pub bind_password : Text
  pub user_search_base : Text
  pub username_attribute : Text
  pub unique_id_attribute : Text

-- `LdapUserEntry`
pub record LdapUserEntry : Type 0 where
  pub dn : Text
  pub unique_id : Text
  pub username : Text
  pub display_name : Text
  pub email : Option Text
  pub department : Option Text
  pub department_dn : Option Text

-- `toArray`
unfoldable pub to_array : AttributeValue → List Text
to_array AttributeValue.undefined = []
to_array (AttributeValue.one t) = t ∷ []
to_array (AttributeValue.many ts) = ts

-- `first`
unfoldable pub first : AttributeValue → Option Text
unfolding to_array
first v = elim (to_array v) [ [] ↦ none | t ∷ ts ↦ some t ]

-- `a ?? b`
abbrev or_else : {A : Type 0} → Option A → A → A
or_else none b = b
or_else (some a) b = a

module _ (config : LdapConfig) where
  -- The filter of the search.
  unfoldable pub user_filter : Text → Text
  unfolding escape_filter_value
  user_filter username =
      lit "("
      ++ (config.username_attribute ++ (lit "=" ++ (escape_filter_value username ++ lit ")")))

  -- The entry as the rest of the API knows it.
  unfoldable pub to_user_entry : Text → Entry → LdapUserEntry
  unfolding first department_from_dn
  to_user_entry username entry =
      let department = department_from_dn entry.dn in
      record {
        dn = entry.dn;
        unique_id = or_else (first (entry.attribute config.unique_id_attribute)) entry.dn;
        username = or_else (first (entry.attribute config.username_attribute)) username;
        display_name =
            or_else (first (entry.attribute (lit "displayName")))
              (or_else (first (entry.attribute (lit "cn"))) username);
        email = first (entry.attribute (lit "mail"));
        department = elim department [ none ↦ none | some d ↦ some d.name ];
        department_dn = elim department [ none ↦ none | some d ↦ some d.dn ];
      }

module _ (client : Client) where
  -- `finally { await client.unbind() }`: a rejection there takes the place of the result.
  abbrev finally_unbind : {A : Type 0} → Result A → Result A
  finally_unbind r = if client.unbind then r else thrown rejected

  -- `findUserByUsername`
  unfoldable pub find_user_by_username : LdapConfig → Text → Result (Option LdapUserEntry)
  unfolding to_user_entry user_filter
  find_user_by_username config username = finally_unbind (
      if client.bind config.bind_dn config.bind_password
      then (elim (client.search config.user_search_base (user_filter config username)) [
        | none ↦ thrown rejected
        | some [] ↦ ok none
        | some (entry ∷ entries) ↦ ok (some (to_user_entry config username entry))
      ])
      else thrown rejected)

  -- `verifyCredentials`; an error of `unbind` is ignored here.
  unfoldable pub verify_credentials : Text → Text → Bool
  verify_credentials dn password = if is_empty password then false else client.bind dn password
