-- ===== src/Directory/Tests.antt =====
-- Names, filters and the synchronisation at concrete inputs.
use munichat.Prelude.{◌≡◌, refl, Bool, ◌&&◌, ◌||◌, none, some, [], ◌∷◌, ◌++◌, if◌then◌else◌}
use munichat.Text.{Text, lit, text_eq, trim}
use munichat.Directory.Names.{Department, escape_filter_value, department_from_dn, join_commas}
use munichat.Directory.Components.{nothing, plainly, escaped, department_from_dn-IsWritten}
use munichat.Directory.Filters.{at_unit, read_from, escape_filter_value_read}
use munichat.Directory.ChannelSync.{sync_channels_for_user}
use munichat.Directory.Memory.{group_of, with_member, without_left, table}
use munichat.Directory.Synced.{belongs, sync_channels_for_user-belongs}

abbrev account : Text
account = lit "CN=Ann"

abbrev unit : Text
unit = lit "TI, Redes"

abbrev written_unit : Text
written_unit = lit "TI\\, Redes"

-- The unit's name has a comma.
department_from_dn-IsWritten_example :
    department_from_dn (join_commas (account ∷ (lit "OU=" ++ written_unit) ∷ lit "DC=br" ∷ []))
    ≡ some
        (record { dn = join_commas ((lit "OU=" ++ written_unit) ∷ lit "DC=br" ∷ []); name = unit })
unfolding trim
department_from_dn-IsWritten_example =
    department_from_dn-IsWritten account written_unit b'T' (lit "I, Redes") (lit "DC=br" ∷ [])
      (plainly b'T' refl (
        plainly b'I' refl (
          escaped b',' refl (
            plainly b' ' refl (
              plainly b'R' refl (
                plainly b'e' refl
                  (plainly b'd' refl (plainly b'e' refl (plainly b's' refl nothing)))))))))
      ((refl, refl), ((refl, refl), ((refl, refl), tt))) refl

-- A pair of hexadecimal digits is read as the digits.
hexadecimal_is_not_read :
    department_from_dn (lit "CN=Ann,OU=S\\c3\\a3o,DC=br")
    ≡ some (record { dn = lit "OU=S\\c3\\a3o,DC=br"; name = lit "Sc3a3o" })
unfolding department_from_dn
hexadecimal_is_not_read = refl

department_is_read :
    department_from_dn (lit "cn=Ann, ou=TI\\, Redes ,DC=br")
    ≡ some (record { dn = lit "ou=TI\\, Redes,DC=br"; name = lit "TI, Redes" })
unfolding department_from_dn
department_is_read = refl

-- A backslash at the end of a value is written as two, and hides the comma after it from the code.
last_backslash_hides_unit : department_from_dn (lit "CN=Ann\\\\,OU=TI,DC=br") ≡ none
unfolding department_from_dn
last_backslash_hides_unit = refl

-- A value that tries to close the filter.
escape_filter_value_read_example :
    read_from at_unit (escape_filter_value (lit "*)(uid=\\") ++ b')' ∷ lit ")")
    ≡ some (lit "*)(uid=\\", lit ")")
escape_filter_value_read_example = escape_filter_value_read (lit "*)(uid=\\") (lit ")")

abbrev department : Department
department = record { dn = lit "OU=TI"; name = lit "TI" }

-- Ann is in the channel of another department and in one that is not linked.
abbrev members : Text → Text → Bool
members u c = text_eq u (lit "ann") && (text_eq c (lit "OU=RH") || text_eq c [])

abbrev moved : Text → Text → Bool
moved =
    without_left (lit "ann") (some (lit "OU=TI")) (with_member (lit "ann") (lit "OU=TI") members)

sync_channels_for_user-belongs_example : moved (lit "ann") (lit "OU=RH") ≡ (
    if text_eq (lit "ann") (lit "ann")
    then belongs
        (some (lit "OU=TI"))
        (group_of moved (lit "OU=RH"))
        (members (lit "ann") (lit "OU=RH"))
    else members (lit "ann") (lit "OU=RH"))
unfolding sync_channels_for_user
sync_channels_for_user-belongs_example =
    sync_channels_for_user-belongs table (λ t. t) (λ t. t) (lit "ann") (some department) members
      moved refl (lit "ann") (lit "OU=RH")
