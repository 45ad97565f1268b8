-- ===== src/Sas/EvenWords.antt =====
-- pgpWordsEven (src/pgpwords.c).
use bzrtp.Common.{Bytes, codes, List, [], ◌∷◌}

abbrev pub pgp_words_even : List Bytes
pgp_words_even =
    codes "aardvark"
    ∷ codes "absurd"
    ∷ codes "accrue"
    ∷ codes "acme"
    ∷ codes "adrift"
    ∷ codes "adult"
    ∷ codes "afflict"
    ∷ codes "ahead"
    ∷ codes "aimless"
    ∷ codes "Algol"
    ∷ codes "allow"
    ∷ codes "alone"
    ∷ codes "ammo"
    ∷ codes "ancient"
    ∷ codes "apple"
    ∷ codes "artist"
    ∷ codes "assume"
    ∷ codes "Athens"
    ∷ codes "atlas"
    ∷ codes "Aztec"
    ∷ codes "baboon"
    ∷ codes "backfield"
    ∷ codes "backward"
    ∷ codes "banjo"
    ∷ codes "beaming"
    ∷ codes "bedlamp"
    ∷ codes "beehive"
    ∷ codes "beeswax"
    ∷ codes "befriend"
    ∷ codes "Belfast"
    ∷ codes "berserk"
    ∷ codes "billiard"
    ∷ codes "bison"
    ∷ codes "blackjack"
    ∷ codes "blockade"
    ∷ codes "blowtorch"
    ∷ codes "bluebird"
    ∷ codes "bombast"
    ∷ codes "bookshelf"
    ∷ codes "brackish"
    ∷ codes "breadline"
    ∷ codes "breakup"
    ∷ codes "brickyard"
    ∷ codes "briefcase"
    ∷ codes "Burbank"
    ∷ codes "button"
    ∷ codes "buzzard"
    ∷ codes "cement"
    ∷ codes "chairlift"
    ∷ codes "chatter"
    ∷ codes "checkup"
    ∷ codes "chisel"
    ∷ codes "choking"
    ∷ codes "chopper"
    ∷ codes "Christmas"
    ∷ codes "clamshell"
    ∷ codes "classic"
    ∷ codes "classroom"
    ∷ codes "cleanup"
    ∷ codes "clockwork"
    ∷ codes "cobra"
    ∷ codes "commence"
    ∷ codes "concert"
    ∷ codes "cowbell"
    ∷ codes "crackdown"
    ∷ codes "cranky"
    ∷ codes "crowfoot"
    ∷ codes "crucial"
    ∷ codes "crumpled"
    ∷ codes "crusade"
    ∷ codes "cubic"
    ∷ codes "dashboard"
    ∷ codes "deadbolt"
    ∷ codes "deckhand"
    ∷ codes "dogsled"
    ∷ codes "dragnet"
    ∷ codes "drainage"
    ∷ codes "dreadful"
    ∷ codes "drifter"
    ∷ codes "dropper"
    ∷ codes "drumbeat"
    ∷ codes "drunken"
    ∷ codes "Dupont"
    ∷ codes "dwelling"
    ∷ codes "eating"
    ∷ codes "edict"
    ∷ codes "egghead"
    ∷ codes "eightball"
    ∷ codes "endorse"
    ∷ codes "endow"
    ∷ codes "enlist"
    ∷ codes "erase"
    ∷ codes "escape"
    ∷ codes "exceed"
    ∷ codes "eyeglass"
    ∷ codes "eyetooth"
    ∷ codes "facial"
    ∷ codes "fallout"
    ∷ codes "flagpole"
    ∷ codes "flatfoot"
    ∷ codes "flytrap"
    ∷ codes "fracture"
    ∷ codes "framework"
    ∷ codes "freedom"
    ∷ codes "frighten"
    ∷ codes "gazelle"
    ∷ codes "Geiger"
    ∷ codes "glitter"
    ∷ codes "glucose"
    ∷ codes "goggles"
    ∷ codes "goldfish"
    ∷ codes "gremlin"
    ∷ codes "guidance"
    ∷ codes "hamlet"
    ∷ codes "highchair"
    ∷ codes "hockey"
    ∷ codes "indoors"
    ∷ codes "indulge"
    ∷ codes "inverse"
    ∷ codes "involve"
    ∷ codes "island"
    ∷ codes "jawbone"
    ∷ codes "keyboard"
    ∷ codes "kickoff"
    ∷ codes "kiwi"
    ∷ codes "klaxon"
    ∷ codes "locale"
    ∷ codes "lockup"
    ∷ codes "merit"
    ∷ codes "minnow"
    ∷ codes "miser"
    ∷ codes "Mohawk"
    ∷ codes "mural"
    ∷ codes "music"
    ∷ codes "necklace"
    ∷ codes "Neptune"
    ∷ codes "newborn"
    ∷ codes "nightbird"
    ∷ codes "Oakland"
    ∷ codes "obtuse"
    ∷ codes "offload"
    ∷ codes "optic"
    ∷ codes "orca"
    ∷ codes "payday"
    ∷ codes "peachy"
    ∷ codes "pheasant"
    ∷ codes "physique"
    ∷ codes "playhouse"
    ∷ codes "Pluto"
    ∷ codes "preclude"
    ∷ codes "prefer"
    ∷ codes "preshrunk"
    ∷ codes "printer"
    ∷ codes "prowler"
    ∷ codes "pupil"
    ∷ codes "puppy"
    ∷ codes "python"
    ∷ codes "quadrant"
    ∷ codes "quiver"
    ∷ codes "quota"
    ∷ codes "ragtime"
    ∷ codes "ratchet"
    ∷ codes "rebirth"
    ∷ codes "reform"
    ∷ codes "regain"
    ∷ codes "reindeer"
    ∷ codes "rematch"
    ∷ codes "repay"
    ∷ codes "retouch"
    ∷ codes "revenge"
    ∷ codes "reward"
    ∷ codes "rhythm"
    ∷ codes "ribcage"
    ∷ codes "ringbolt"
    ∷ codes "robust"
    ∷ codes "rocker"
    ∷ codes "ruffled"
    ∷ codes "sailboat"
    ∷ codes "sawdust"
    ∷ codes "scallion"
    ∷ codes "scenic"
    ∷ codes "scorecard"
    ∷ codes "Scotland"
    ∷ codes "seabird"
    ∷ codes "select"
    ∷ codes "sentence"
    ∷ codes "shadow"
    ∷ codes "shamrock"
    ∷ codes "showgirl"
    ∷ codes "skullcap"
    ∷ codes "skydive"
    ∷ codes "slingshot"
    ∷ codes "slowdown"
    ∷ codes "snapline"
    ∷ codes "snapshot"
    ∷ codes "snowcap"
    ∷ codes "snowslide"
    ∷ codes "solo"
    ∷ codes "southward"
    ∷ codes "soybean"
    ∷ codes "spaniel"
    ∷ codes "spearhead"
    ∷ codes "spellbind"
    ∷ codes "spheroid"
    ∷ codes "spigot"
    ∷ codes "spindle"
    ∷ codes "spyglass"
    ∷ codes "stagehand"
    ∷ codes "stagnate"
    ∷ codes "stairway"
    ∷ codes "standard"
    ∷ codes "stapler"
    ∷ codes "steamship"
    ∷ codes "sterling"
    ∷ codes "stockman"
    ∷ codes "stopwatch"
    ∷ codes "stormy"
    ∷ codes "sugar"
    ∷ codes "surmount"
    ∷ codes "suspense"
    ∷ codes "sweatband"
    ∷ codes "swelter"
    ∷ codes "tactics"
    ∷ codes "talon"
    ∷ codes "tapeworm"
    ∷ codes "tempest"
    ∷ codes "tiger"
    ∷ codes "tissue"
    ∷ codes "tonic"
    ∷ codes "topmost"
    ∷ codes "tracker"
    ∷ codes "transit"
    ∷ codes "trauma"
    ∷ codes "treadmill"
    ∷ codes "Trojan"
    ∷ codes "trouble"
    ∷ codes "tumor"
    ∷ codes "tunnel"
    ∷ codes "tycoon"
    ∷ codes "uncut"
    ∷ codes "unearth"
    ∷ codes "unwind"
    ∷ codes "uproot"
    ∷ codes "upset"
    ∷ codes "upshot"
    ∷ codes "vapor"
    ∷ codes "village"
    ∷ codes "virus"
    ∷ codes "Vulcan"
    ∷ codes "waffle"
    ∷ codes "wallet"
    ∷ codes "watchword"
    ∷ codes "wayside"
    ∷ codes "willow"
    ∷ codes "woodlark"
    ∷ codes "Zulu"
    ∷ []
