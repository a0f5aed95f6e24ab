-- ===== src/Tests/Inviting.antt =====
-- Examples for invitations and registration.
use sidequest_demo_be.Common.{true, false, ◌≤◌, ◌≡◌, refl, none, some, false, [], arith}
use sidequest_demo_be.Common.Text.{codes, trim}
use sidequest_demo_be.Effects.{ok, conflict}
use sidequest_demo_be.World.{World}
use sidequest_demo_be.Store.Rows.{except, unless}
use sidequest_demo_be.Links.{build_invite_token_register_link}
use sidequest_demo_be.Invites.{
  accepted_invite, normalize_email, consume_referral_invite_tx, preview_token, create_invite,
  sent_since, start_of_utc_day,
}
use sidequest_demo_be.Invites.{ReferralTxOutcome}
use sidequest_demo_be.Invites.Issuing.{create_invite_lem}
use sidequest_demo_be.Invites.Referral.{TokensUnique, IsFor, consume_pays, preview_token-consume}
use sidequest_demo_be.Auth.{RegisterDto, register}
use sidequest_demo_be.Auth.Accounts.{register_atomic}
use sidequest_demo_be.Tests.{db, tx, ann, ben, methods, crypto, invitation, town}

-- The town without a friendship, so that Ben can answer Ann's invitation.
abbrev strangers : World db
strangers = record town { friendships = [] }

consume_pays_example :
    db.invite.find 6
      (consume_referral_invite_tx db methods 9
        (codes "t0")
        2
        (codes "ben@x.org")
        7
        strangers).1.invites
    ≡ some (accepted_invite 2 7 invitation)
unfolding normalize_email trim
consume_pays_example =
    (consume_pays db methods 9 (codes "t0") 2 (codes "ben@x.org") 7 strangers {id = 6}
      {invite = invitation} {inviter = ann} {invitee = ben} refl refl refl refl (ground arith) refl
      refl).1

strangers-TokensUnique : TokensUnique db strangers.invites
strangers-TokensUnique i j a b found other same = ground arith

strangers-IsFor : IsFor db methods (codes "t0") 2 (codes "ben@x.org") strangers
unfolding normalize_email trim unless
strangers-IsFor id invite found =
    let same : invite ≡ invitation = ground arith in
    rw same (refl, ground arith, (ann, refl), (ben, refl))

preview_token-consume_example :
    ((out : ReferralTxOutcome) × ((consume_referral_invite_tx db methods 9
          (codes "t0")
          2
          (codes "ben@x.org")
          7
          strangers).0
        ≡ ok out))
unfolding preview_token unless normalize_email trim
preview_token-consume_example =
    ((preview_token-consume db methods 9 (codes "t0") 2 (codes "ben@x.org") 7 strangers
          (record {
            valid = true;
            expired = false;
            inviter_username = some ann.username;
            invited_email = some invitation.email;
          })
          refl).0
        strangers-IsFor).0
      refl

create_invite_example :
    db.invite.total
      (sent_since 1 (start_of_utc_day 90000000))
      (create_invite db methods
        (codes "f")
        11
        (codes "t2")
        1
        (codes "eve@x.org")
        90000000
        town).1.invites
    ≤ 20
unfolding create_invite normalize_email trim except unless
create_invite_example =
    (create_invite_lem db methods (codes "f") 11 (codes "t2") 1 (codes "eve@x.org") 90000000 town
      {dto = record {
        id = 11;
        email = codes "eve@x.org";
        invite_link = build_invite_token_register_link methods (codes "f") (codes "t2");
      }}
      refl refl).2

abbrev twin : RegisterDto
twin = record {
  email = codes "ann@x.org";
  username = codes "twin";
  password = codes "secret00";
  display_name = none;
  invite_token = none;
}

register_atomic_example : (register db methods crypto (codes "f") tx 3 9 twin 7 town).1 ≡ town
unfolding register normalize_email trim unless
register_atomic_example =
    register_atomic db methods crypto (codes "f") tx 3 9 twin 7 town
      (conflict "Email already registered") refl
